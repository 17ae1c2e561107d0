-- ===== src/Service/Bounds.antt =====
-- main.go: how much the service remembers of its visitors.
use ip_unt1_com.Prelude.{
  ◌≤◌, refl, inl, inr, Bool, List, [], ◌∷◌, Text, is_empty, Bool-cases, lookup, insert, size,
  text_instance, arith, sym, subst, ◌&&◌,
}
use ip_unt1_com.Prelude.Ranging.{Covers}
use ip_unt1_com.Limit.{new_rate_limiter, limiter_key}
use ip_unt1_com.Ua.{new_ua_seen_set}
use ip_unt1_com.Ua.Detect.{UaInfo}
use ip_unt1_com.View.{Target, found, refused, RequestInfo, Request, inspect, target_ip}
use ip_unt1_com.Page.{Server, World, Call, gather, gather_target, record_ua, dataset_of}
use ip_unt1_com.Page.Handlers.{handle, Route}
use ip_unt1_com.Page.Status.{target_of}
use ip_unt1_com.Service.{
  Service, Event, asks, refreshes, marks, mark_loaded, serve, serve_all, start, new_server,
}
use ip_unt1_com.Service.Caps.{
  IsLimited, IsFew, allow-IsLimited, target_ip-limiter, first_seen-IsFew,
}

-- What a server remembers stays within the caps of `main`.
record IsBounded (s : Server) : Type 0 where
  limiter : IsLimited s.lookup_limit
  bots : IsFew s.ua_bot_seen
  others : IsFew s.ua_unknown_seen

-- Go's ranges over the maps of a server, while it handles a request with this user agent, meet every key.
pub record AreRanges (s : Server) (w : World) (ua : Text) : Type 0 where
  pub buckets : Covers w.limit_order s.lookup_limit.buckets
  pub bots : Covers w.seen_order (insert ua w.now s.ua_bot_seen.items)
  pub others : Covers w.seen_order (insert ua w.now s.ua_unknown_seen.items)

record_ua-IsBounded :
    (s : Server) (w : World) (raw : Text) (ua : UaInfo)
    → Covers w.seen_order (insert raw w.now s.ua_bot_seen.items)
    → Covers w.seen_order (insert raw w.now s.ua_unknown_seen.items)
    → IsBounded s
    → IsBounded (record_ua s w raw ua).0
unfolding record_ua
record_ua-IsBounded s w raw ua cb co h = elim (Bool-cases (is_empty raw)) [
  | inl blank ↦ rw (blank, record_ua) h
  | inr named ↦
      let bots = first_seen-IsFew s.ua_bot_seen raw w.now w.seen_order named cb h.bots in
      let others = first_seen-IsFew s.ua_unknown_seen raw w.now w.seen_order named co h.others in
      elim (Bool-cases ua.bot) [
        | inl bot ↦
            rw (named, bot, record_ua)
              (record { limiter = h.limiter; bots = bots; others = h.others })
        | inr human ↦ elim (Bool-cases (is_empty ua.browser)) [
          | inl unknown ↦
              rw (named, human, unknown, record_ua)
                (record { limiter = h.limiter; bots = h.bots; others = others })
          | inr known ↦ rw (named, human, known, record_ua) h
        ]
      ]
]

abbrev pub ua_of : Server → World → Call → Text
ua_of s w c = (inspect w.parse_addr w.host_of s.trust_cf_headers c.request).ua

gather_target-IsBounded :
    (s : Server) (w : World) (r : Request) (info : RequestInfo) (t : Target)
    → Covers w.seen_order (insert info.ua w.now s.ua_bot_seen.items)
    → Covers w.seen_order (insert info.ua w.now s.ua_unknown_seen.items)
    → IsBounded s
    → IsBounded (gather_target s w r info t).0
unfolding gather_target
gather_target-IsBounded s w r info (refused status msg) cb co h = h
gather_target-IsBounded s w r info (found ip raw is_lookup) cb co h =
    record_ua-IsBounded s w info.ua (dataset_of s w r info ip raw is_lookup).ua_info cb co h

handle-IsBounded :
    (path : Route) (format : Text) (s : Server) (w : World) (c : Call)
    → AreRanges s w (ua_of s w c)
    → IsBounded s
    → IsBounded (handle path format s w c).0
unfolding handle gather
handle-IsBounded path format s w c ranges h =
    let info = inspect w.parse_addr w.host_of s.trust_cf_headers c.request in
    let l = s.lookup_limit in
    let out =
      (target_ip w.parse_addr l info.ip info.ip_raw w.now w.limit_order c.in_path c.in_query).0 in
    let charged =
      allow-IsLimited l (limiter_key info.ip) w.now w.limit_order ranges.buckets h.limiter in
    let limited : IsLimited out =
      elim (target_ip-limiter w.parse_addr l info.ip info.ip_raw w.now w.limit_order c.in_path
        c.in_query) [
          | inl same ↦ subst IsLimited (sym same) h.limiter
          | inr one ↦ subst IsLimited (sym one) charged
        ] in
    gather_target-IsBounded (record s { lookup_limit = out }) w c.request info (target_of s w c)
      ranges.bots ranges.others (record { limiter = limited; bots = h.bots; others = h.others })

-- That Go's ranges meet every key, for every request among the events.
unfoldable pub AllRange : Service → List Event → Type 0
unfolding serve
AllRange s [] = Unit
AllRange s (asks path format w c ∷ es) =
    AreRanges s.server w (ua_of s.server w c) × AllRange (serve s (asks path format w c)) es
AllRange s (refreshes range results ∷ es) = AllRange (serve s (refreshes range results)) es
AllRange s (marks time ∷ es) = AllRange (serve s (marks time)) es

mark_loaded-IsBounded :
    (s : Service) (time : Text) → IsBounded s.server → IsBounded (mark_loaded s time).server
unfolding mark_loaded
mark_loaded-IsBounded s time h = elim (Bool-cases (s.refreshed && s.server.snapshot.ready)) [
  | inl loaded ↦
      rw (loaded, mark_loaded) (record { limiter = h.limiter; bots = h.bots; others = h.others })
  | inr not_loaded ↦ rw (not_loaded, mark_loaded) h
]

serve_all-IsBounded :
    (s : Service) (es : List Event)
    → AllRange s es
    → IsBounded s.server
    → IsBounded (serve_all s es).server
unfolding serve_all serve AllRange mark_loaded
serve_all-IsBounded s [] r h = h
serve_all-IsBounded s (asks path format w c ∷ es) r h =
    serve_all-IsBounded (serve s (asks path format w c)) es r.1
      (handle-IsBounded path format s.server w c r.0 h)
serve_all-IsBounded s (refreshes range results ∷ es) r h =
    serve_all-IsBounded (serve s (refreshes range results)) es r
      (record { limiter = h.limiter; bots = h.bots; others = h.others })
serve_all-IsBounded s (marks time ∷ es) r h =
    serve_all-IsBounded (mark_loaded s time) es r (mark_loaded-IsBounded s time h)

start-IsBounded : (trust : Bool) → IsBounded (start trust).server
unfolding new_server new_rate_limiter new_ua_seen_set lookup
start-IsBounded trust = record {
  limiter = record { cap = refl; fits = omega arith };
  bots = record { cap = refl; unnamed = refl; fits = omega arith };
  others = record { cap = refl; unnamed = refl; fits = omega arith };
}

-- Whatever visitors ask, in any order and with refreshes in between, the service never remembers
-- more than 20000 callers, nor more than 1024 user agents of bots, nor 1024 of unknown browsers,
-- where Go's ranges meet every key.
pub serve_all-size :
    (trust : Bool) (es : List Event)
    → AllRange (start trust) es
    → let s = (serve_all (start trust) es).server in
      (size s.lookup_limit.buckets ≤ 20_000)
      × (size s.ua_bot_seen.items ≤ 1024)
      × (size s.ua_unknown_seen.items ≤ 1024)
serve_all-size trust es r =
    let b = serve_all-IsBounded (start trust) es r (start-IsBounded trust) in
    (b.limiter.fits, b.bots.fits, b.others.fits)
