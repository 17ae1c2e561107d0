-- ===== src/Tests/Services.antt =====
-- Whole runs: the service, its caches and its lists.
use ip_unt1_com.Prelude.{
  ℕ, ◌≤◌, ◌≡◌, refl, true, not, ◌&&◌, List, [], ◌∷◌, none, some, Text, bytes, text_eq, lookup,
  insert, size, contains, text_instance, text_eq_iff, if◌then◌else◌, is_empty, is_some, length,
  arith, Map,
}
use ip_unt1_com.Net.{Addr, v4, Prefix, canonical_ip}
use ip_unt1_com.Net.Equality.{addr_instance}
use ip_unt1_com.Asn.{no_asn}
use ip_unt1_com.Index.{IpRange, lookup_ranges, search_loop, starts_after, answer_at}
use ip_unt1_com.Index.Rounds.{lookup_ranges-rounds}
use ip_unt1_com.Vpn.{SourceData, check}
use ip_unt1_com.Vpn.Flags.{listed_as}
use ip_unt1_com.Snapshot.{
  no_data, FetchResult, any_loaded, insert_name, merge_result, merge_results, source_of,
  cidr_entries, sort_names, build_snapshot, refresh, text_less,
}
use ip_unt1_com.Snapshot.Egress.{covered, IsOnlyFeed, check-build_egress}
use ip_unt1_com.Signals.{whois_max_in_flight}
use ip_unt1_com.Signals.Slots
use ip_unt1_com.View.{inspect, read_cf, peer_ip, identified}
use ip_unt1_com.Strings.{trim_space, trim, trim_left, is_space}
use ip_unt1_com.Limit.{new_rate_limiter}
use ip_unt1_com.Ua.{new_ua_seen_set}
use ip_unt1_com.Page.{World, Call}
use ip_unt1_com.Page.Handlers.{root, handle_ready}
use ip_unt1_com.Service.{
  Event, asks, refreshes, marks, serve, serve_all, start, mark_loaded, new_server, new_vpn_db,
}
use ip_unt1_com.Service.Ready.{is_ok, is_ok-serve_all}
use ip_unt1_com.Service.Bounds.{AllRange, serve_all-size}

abbrev in_order : Map Addr Text → List (Addr × Text)
in_order m = m

abbrev tor_result : FetchResult
tor_result = record {
  name = bytes "tor";
  payload = record no_data { addrs = v4 0x0a000001 ∷ [] };
  err = none;
  now = 5;
}

abbrev failed : FetchResult
failed = record { name = bytes "tor"; payload = no_data; err = some (bytes "timeout"); now = 7 }

abbrev loading : List Event
loading = refreshes in_order (tor_result ∷ []) ∷ marks (bytes "2026-01-01T00:00:00Z") ∷ []

abbrev failing : List Event
failing = refreshes in_order (failed ∷ []) ∷ marks (bytes "2026-01-01T06:00:00Z") ∷ []

is_ok-serve_all_example : is_ok (serve_all (serve_all (start true) loading) failing).server ≡ true
unfolding serve_all serve handle_ready mark_loaded refresh build_snapshot any_loaded sort_names
    merge_results merge_result insert new_server new_vpn_db insert_name lookup text_eq bytes
is_ok-serve_all_example = is_ok-serve_all true loading failing refl

-- A visitor with a bot's user agent.
abbrev curl : Text → Text
curl k = if text_eq k (bytes "User-Agent") then bytes "curl/8.4.0" else []

abbrev visit : Call
visit = record {
  request = record { header = curl; host = bytes "ip.unt1.com"; remote_addr = bytes "8.8.8.8:99" };
  in_path = [];
  in_query = [];
}

abbrev world : World
world = record {
  parse_addr = λ s. some (v4 0x08080808);
  host_of = λ s. none;
  asn_of = λ a. no_asn;
  names_of = λ a. [];
  whois_of = λ a. none;
  now = 7;
  limit_order = [];
  seen_order = bytes "curl/8.4.0" ∷ [];
  is_print = λ r. true;
}

abbrev day : List Event
day = asks root [] world visit ∷ loading

day-AllRange : AllRange (start true) day
unfolding AllRange contains new_server new_rate_limiter new_ua_seen_set insert text_eq bytes inspect
    read_cf peer_ip identified trim_space trim trim_left is_space
day-AllRange = (
  record {
    buckets = λ k h. absurd (ground arith);
    bots = λ k h. ground arith;
    others = λ k h. ground arith;
  },
  tt,
)

serve_all-size_example :
    (size (serve_all (start true) day).server.lookup_limit.buckets ≤ 20_000)
    × (size (serve_all (start true) day).server.ua_bot_seen.items ≤ 1024)
    × (size (serve_all (start true) day).server.ua_unknown_seen.items ≤ 1024)
serve_all-size_example = serve_all-size true day day-AllRange

abbrev three_ranges : List IpRange
three_ranges =
    record { first = 10; last = 19; provider = bytes "apple" }
    ∷ record { first = 20; last = 29; provider = bytes "tor" }
    ∷ record { first = 40; last = 50; provider = bytes "apple" }
    ∷ []

lookup_ranges-rounds_example :
    (i : ℕ) × (search_loop 2 (starts_after three_ranges 25) 0 (length three_ranges) ≡ some i)
    × (lookup_ranges three_ranges 25
        ≡ (if is_empty three_ranges then none else answer_at three_ranges 25 i))
lookup_ranges-rounds_example = lookup_ranges-rounds 2 three_ranges 25 (omega arith)

-- One feed of ranges, and one of addresses.
abbrev net : Prefix
net = record { addr = v4 0x0a000000; bits = 24 }

abbrev icloud : Text
icloud = bytes "icloud-private-relay"

abbrev feeds : Map Text SourceData
feeds =
    (bytes "tor", record no_data { addrs = v4 0x0a000001 ∷ [] })
    ∷ (icloud, record no_data { cidrs = net ∷ [] })
    ∷ []

feeds-IsOnlyFeed : IsOnlyFeed icloud feeds
unfolding lookup
feeds-IsOnlyFeed n other = ground (arith, text_eq_iff n icloud, text_eq_iff icloud n)

check-build_egress_example :
    (check (build_snapshot in_order feeds) (v4 0x0a000005) no_asn).privacy_proxy ≡ (
      not (is_some (listed_as (build_snapshot in_order feeds) (canonical_ip (v4 0x0a000005))))
      && covered (canonical_ip (v4 0x0a000005)) (source_of icloud feeds).cidrs)
unfolding sort_names insert_name cidr_entries lookup text_eq bytes text_less
check-build_egress_example =
    check-build_egress icloud feeds feeds-IsOnlyFeed in_order (v4 0x0a000005) no_asn refl
      (omega arith, tt)

-- Two callers come, and one takes a place.
abbrev asked : Slots.Slots
asked = record { sem = 0; callers = Slots.asking ∷ Slots.asking ∷ [] }

abbrev taken : Slots.Slots
taken = Slots.acquire asked 1

taken-Reach : Slots.Reach taken
taken-Reach =
    Slots.next (Slots.next (Slots.next Slots.here (Slots.comes refl)) (Slots.comes refl))
      (Slots.acquires 1 refl (omega arith) refl)

Reach-queries_example :
    (Slots.queries taken.callers ≤ whois_max_in_flight) × (taken.sem ≡ Slots.queries taken.callers)
Reach-queries_example = Slots.Reach-queries taken-Reach
