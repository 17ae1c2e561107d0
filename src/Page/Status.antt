-- ===== src/Page/Status.antt =====
-- main.go: with which status and headers the requests about an address are answered.
use ip_unt1_com.Prelude.{
  ℕ, ◌≡◌, refl, Bool, true, false, none, some, Text, bytes, text_eq, text_instance, if◌then◌else◌,
  lookup, insert,
}
use ip_unt1_com.View.{Target, found, refused, RequestInfo, inspect, target_ip}
use ip_unt1_com.Page.{Server, World, Call, gather_target, gather, dataset_of}
use ip_unt1_com.Page.Handlers.{Response, Route, answer, show, handle, error}
use ip_unt1_com.Page.Headers.{show-IsUncached}

-- What a request is about.
abbrev pub target_of : Server → World → Call → Target
target_of s w c =
    let info = inspect w.parse_addr w.host_of s.trust_cf_headers c.request in
    (target_ip w.parse_addr s.lookup_limit info.ip info.ip_raw w.now w.limit_order c.in_path
      c.in_query).1

abbrev pub status_of : Target → ℕ
status_of (found ip raw is_lookup) = 200
status_of (refused status msg) = status

abbrev pub is_refused : Target → Bool
is_refused (found ip raw is_lookup) = false
is_refused (refused status msg) = true

-- The status of a target, and the headers that forbid caching, unless it is refused.
abbrev pub Fits : Response → Target → Type 0
Fits r t =
    (r.status ≡ status_of t)
    × (lookup (bytes "Cache-Control") r.headers
        ≡ (if is_refused t then none else some (bytes "no-store")))
    × (lookup (bytes "Access-Control-Allow-Origin") r.headers
        ≡ (if is_refused t then none else some (bytes "*")))

error-Fits : (status : ℕ) (msg : Text) → Fits (error status msg) (refused status msg)
unfolding error lookup insert text_eq bytes
error-Fits status msg = (refl, refl, refl)

gather_target-Fits :
    (s : Server) (w : World) (c : Call) (info : RequestInfo) (path : Route) (format : Text)
    (t : Target)
    → Fits (answer (show w.is_print path c.request format) (gather_target s w c.request info t).1) t
unfolding gather_target answer
gather_target-Fits s w c info path format (found ip raw is_lookup) =
    let h =
      show-IsUncached w.is_print path c.request format
        (dataset_of s w c.request info ip raw is_lookup) in
    (h.status, h.uncached, h.shared)
gather_target-Fits s w c info path format (refused status msg) = error-Fits status msg

-- Each of the seven handlers that look an address up (for the paths of the root and of an address,
-- /json, /country, /vpn, /trace, /all and /reverse) answers a request with the status of its target,
-- that of the refusal or 200; an answer with 200, in every format, is kept by no cache and may be
-- read by every page, and a refusal says nothing of either.
pub handle-Fits :
    (path : Route) (format : Text) (s : Server) (w : World) (c : Call)
    → Fits (handle path format s w c).1 (target_of s w c)
unfolding handle gather
handle-Fits path format s w c =
    gather_target-Fits _ w c (inspect w.parse_addr w.host_of s.trust_cf_headers c.request) path
      format (target_of s w c)
