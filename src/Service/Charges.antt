-- ===== src/Service/Charges.antt =====
-- main.go: which requests are charged to the limiter, and what becomes of them.
use ip_unt1_com.Prelude.{
  ℕ, ◌≡◌, refl, Bool, false, not, ◌&&◌, List, Option, none, some, Text, if◌then◌else◌, is_empty,
  arith, ◌∙◌,
}
use ip_unt1_com.Strings.{trim_space}
use ip_unt1_com.Net.{Addr, canonical_ip, is_routable}
use ip_unt1_com.Net.Equality.{addr_eq}
use ip_unt1_com.Limit.{RateLimiter, allow, limiter_key}
use ip_unt1_com.View.{
  Target, found, refused, RequestInfo, Request, inspect, target_ip, target_named, target_allowed,
}
use ip_unt1_com.Ua.Detect.{UaInfo}
use ip_unt1_com.Page.{Server, World, Call, gather, gather_target, record_ua, dataset_of}
use ip_unt1_com.Page.Handlers.{handle, Route}
use ip_unt1_com.Page.Status.{target_of}

-- A request that is let through to the look-up of someone else's address.
abbrev pub is_look_up : Target → Bool
is_look_up (found ip raw is_lookup) = is_lookup
is_look_up (refused status msg) = false

abbrev is_other : Addr → Option Addr → Bool
is_other visitor none = false
is_other visitor (some a) = is_routable (canonical_ip a) && not (addr_eq (canonical_ip a) visitor)

-- The request names a routable address that is not the visitor's.
abbrev pub names_other : (Text → Option Addr) → Addr → Text → Text → Bool
names_other parse_addr visitor in_path in_query =
    let path = trim_space in_path in
    let override = if is_empty path then trim_space in_query else path in
    not (is_empty override) && is_other visitor (parse_addr override)

-- What becomes of the limiter, and whether there is a look-up.
abbrev Charges : Bool → RateLimiter → Addr → ℕ → List Text → RateLimiter × Target → Type 0
Charges other l visitor now order out =
    let (l', ok) = allow l (limiter_key visitor) now order in
    (out.0 ≡ (if other then l' else l)) × (is_look_up out.1 ≡ (if other then ok else false))

target_allowed-Charges :
    (l : RateLimiter) (visitor : Addr) (now : ℕ) (order : List Text) (a : Addr)
    → Charges (not (addr_eq a visitor)) l visitor now order (target_allowed l visitor now order a)
unfolding target_allowed
target_allowed-Charges l visitor now order a = ground arith

target_named-Charges :
    (l : RateLimiter) (visitor : Addr) (now : ℕ) (order : List Text) (s : Text) (o : Option Addr)
    → Charges (is_other visitor o) l visitor now order (target_named l visitor now order s o)
unfolding target_named
target_named-Charges l visitor now order s none = (refl, refl)
target_named-Charges l visitor now order s (some a) =
    ground (arith, target_allowed-Charges l visitor now order (canonical_ip a))

target_ip-Charges :
    (parse_addr : Text → Option Addr) (l : RateLimiter) (visitor : Addr) (raw : Text) (now : ℕ)
    (order : List Text) (in_path in_query : Text)
    → Charges
        (names_other parse_addr visitor in_path in_query)
        l
        visitor
        now
        order
        (target_ip parse_addr l visitor raw now order in_path in_query)
unfolding target_ip
target_ip-Charges parse_addr l visitor raw now order in_path in_query =
    let path = trim_space in_path in
    let override = if is_empty path then trim_space in_query else path in
    ground (arith, target_named-Charges l visitor now order override (parse_addr override))

record_ua-keeps :
    (s : Server) (w : World) (raw : Text) (ua : UaInfo)
    → ((record_ua s w raw ua).0.trust_cf_headers ≡ s.trust_cf_headers)
      × ((record_ua s w raw ua).0.lookup_limit ≡ s.lookup_limit)
unfolding record_ua
record_ua-keeps s w raw ua = ground arith

gather_target-keeps :
    (s : Server) (w : World) (r : Request) (info : RequestInfo) (t : Target)
    → ((gather_target s w r info t).0.trust_cf_headers ≡ s.trust_cf_headers)
      × ((gather_target s w r info t).0.lookup_limit ≡ s.lookup_limit)
unfolding gather_target
gather_target-keeps s w r info (refused status msg) = (refl, refl)
gather_target-keeps s w r info (found ip raw is_lookup) =
    record_ua-keeps s w info.ua (dataset_of s w r info ip raw is_lookup).ua_info

abbrev pub visitor_of : Bool → World → Call → Addr
visitor_of trust w c = (inspect w.parse_addr w.host_of trust c.request).ip

abbrev pub asks_other : Bool → World → Call → Bool
asks_other trust w c = names_other w.parse_addr (visitor_of trust w c) c.in_path c.in_query

-- A request charges the limiter once if it names someone else, and not at all otherwise.
pub handle-Charges :
    (path : Route) (format : Text) (s : Server) (w : World) (c : Call)
    → let visitor = visitor_of s.trust_cf_headers w c in
      let (l', ok) = allow s.lookup_limit (limiter_key visitor) w.now w.limit_order in
      let s' = (handle path format s w c).0 in
      (s'.trust_cf_headers ≡ s.trust_cf_headers)
      × (s'.lookup_limit ≡ (if asks_other s.trust_cf_headers w c then l' else s.lookup_limit))
      × (is_look_up (target_of s w c) ≡ (if asks_other s.trust_cf_headers w c then ok else false))
unfolding handle gather
handle-Charges path format s w c =
    let info = inspect w.parse_addr w.host_of s.trust_cf_headers c.request in
    let out =
      target_ip w.parse_addr s.lookup_limit info.ip info.ip_raw w.now w.limit_order c.in_path
        c.in_query in
    let kept = gather_target-keeps (record s { lookup_limit = out.0 }) w c.request info out.1 in
    let charged =
      target_ip-Charges w.parse_addr s.lookup_limit info.ip info.ip_raw w.now w.limit_order
        c.in_path c.in_query in
    (kept.0, kept.1 ∙ charged.0, charged.1)
