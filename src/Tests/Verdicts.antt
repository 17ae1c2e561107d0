-- ===== src/Tests/Verdicts.antt =====
-- Verdicts and refreshes, run.
use ip_unt1_com.Prelude.{
  ◌≡◌, refl, true, false, not, ◌&&◌, ◌||◌, List, [], ◌∷◌, Option, none, some, Text, bytes, text_eq,
  lookup, is_some, is_empty, if◌then◌else◌, text_instance, Map,
}
use ip_unt1_com.Prelude.Int.{pos}
use ip_unt1_com.Net.{Addr, v4, Prefix, canonical_ip}
use ip_unt1_com.Net.Equality.{addr_eq, addr_instance, prefix_instance}
use ip_unt1_com.Index.{build_cidr_index}
use ip_unt1_com.Asn.{AsnInfo, no_asn}
use ip_unt1_com.Vpn.{SourceData, VpnSnapshot, VpnVerdict, no_verdict, check, augment}
use ip_unt1_com.Vpn.Flags.{
  listed_as, is_tor, near_one, in_egress, tier_of, rents_to_vpns, only_hosts, flags, check-flags,
  augment_keeps,
}
use ip_unt1_com.Snapshot.{
  no_data, FetchResult, build_snapshot, build_tables, derive_nets, refresh, sort_names, insert_name,
}
use ip_unt1_com.Snapshot.Listing.{seen, by_list, by_relay, lister, publisher, seen-build_tables}
use ip_unt1_com.Snapshot.Nets.{providers_near, agreed, lookup-derive_nets}
use ip_unt1_com.Snapshot.Refresh.{latest, any_fresh, refresh-latest, refresh-error}
use ip_unt1_com.Snapshot.Verdict.{check-build_tor}

abbrev exit_node : Addr
exit_node = v4 0x0a000001

abbrev tor_data : SourceData
tor_data = record no_data { addrs = exit_node ∷ [] }

abbrev feeds : Map Text SourceData
feeds = (bytes "tor", tor_data) ∷ []

abbrev in_order : Map Addr Text → List (Addr × Text)
in_order m = m

abbrev snapshot : VpnSnapshot
snapshot = record {
  sources = feeds;
  ips = (exit_node, bytes "tor") ∷ (v4 0x0a000002, bytes "ivpn") ∷ [];
  relays = [];
  ip_nets = [];
  cidrs = build_cidr_index [];
  ready = true;
}

abbrev rental : AsnInfo
rental = record no_asn { asn = pos 9009 }

abbrev home : AsnInfo
home = record no_asn { asn = pos 3320 }

check-flags_example : flags (check snapshot (v4 0x0a000002) rental) ≡ (
  is_some (listed_as snapshot (canonical_ip (v4 0x0a000002)))
      || (near_one snapshot (canonical_ip (v4 0x0a000002))
          || in_egress snapshot (canonical_ip (v4 0x0a000002)))
      || rents_to_vpns (tier_of rental),
  only_hosts (tier_of rental),
  is_tor (listed_as snapshot (canonical_ip (v4 0x0a000002))),
  not (is_some (listed_as snapshot (canonical_ip (v4 0x0a000002))))
      && in_egress snapshot (canonical_ip (v4 0x0a000002)),
)
check-flags_example = check-flags snapshot (v4 0x0a000002) rental refl

abbrev whois : Option (Text → Text → Option Text)
whois = some (λ p r. some (bytes "NordVPN"))

abbrev seen_before : VpnVerdict
seen_before = record (no_verdict true) { vpn = true; provider = bytes "ivpn" }

augment_keeps_example :
    ((seen_before.vpn || (augment seen_before rental [] whois).vpn)
      ≡ (augment seen_before rental [] whois).vpn)
    × ((augment seen_before rental [] whois).provider ≡ (
        if is_empty seen_before.provider
        then (augment seen_before rental [] whois).provider
        else seen_before.provider))
    × ((augment seen_before rental [] whois).hosting ≡ seen_before.hosting)
    × ((augment seen_before rental [] whois).tor ≡ seen_before.tor)
    × ((augment seen_before rental [] whois).privacy_proxy ≡ seen_before.privacy_proxy)
    × ((augment seen_before rental [] whois).ready ≡ seen_before.ready)
augment_keeps_example = augment_keeps seen_before rental [] whois

seen-build_tables_example :
    seen exit_node (build_tables feeds (bytes "tor" ∷ []))
    ≡ by_list
        (lister exit_node feeds (bytes "tor" ∷ []))
        (by_relay (publisher exit_node feeds (bytes "tor" ∷ [])) (none, none))
seen-build_tables_example = seen-build_tables exit_node feeds (bytes "tor" ∷ [])

abbrev pairs : List (Addr × Text)
pairs =
    (v4 0x0a000002, bytes "ivpn") ∷ (exit_node, bytes "tor") ∷ (v4 0x0a000009, bytes "airvpn") ∷ []

abbrev ten_net : Prefix
ten_net = record { addr = v4 0x0a000000; bits = 24 }

lookup-derive_nets_example :
    lookup ten_net (derive_nets [] pairs) ≡ agreed (providers_near ten_net pairs)
lookup-derive_nets_example = lookup-derive_nets ten_net pairs

abbrev failed : FetchResult
failed = record { name = bytes "tor"; payload = no_data; err = some (bytes "timeout"); now = 7 }

refresh-latest_example :
    lookup (bytes "tor") (refresh in_order snapshot (failed ∷ [])).0.sources
    ≡ latest (bytes "tor") (lookup (bytes "tor") snapshot.sources) (failed ∷ [])
refresh-latest_example = refresh-latest in_order snapshot (failed ∷ []) (bytes "tor")

refresh-error_example :
    is_some (refresh in_order snapshot (failed ∷ [])).1 ≡ not (any_fresh (failed ∷ []))
refresh-error_example = refresh-error in_order snapshot (failed ∷ []) refl

check-build_tor_example :
    ((check (build_snapshot in_order feeds) exit_node rental).tor ≡ true)
    × ((check (build_snapshot in_order feeds) exit_node rental).provider ≡ [])
    × ((check (build_snapshot in_order feeds) exit_node rental).relay ≡ none)
    × ((check (build_snapshot in_order feeds) exit_node rental).privacy_proxy ≡ false)
unfolding canonical_ip lookup text_eq bytes addr_eq sort_names insert_name
check-build_tor_example = check-build_tor in_order feeds exit_node rental refl refl
