-- ===== src/Snapshot/Verdict.antt =====
-- What a verdict on a derived snapshot says of the feeds themselves.
use ip_unt1_com.Prelude.{
  text_eq, ◌≡◌, ◌∙◌, ap, true, false, List, [], none, some, Text, bytes, Map, keys,
}
use ip_unt1_com.Net.{Addr, is_valid, canonical_ip}
use ip_unt1_com.Net.Equality.{addr_instance, prefix_instance}
use ip_unt1_com.Asn.{AsnInfo}
use ip_unt1_com.Vpn.{SourceData, check}
use ip_unt1_com.Vpn.Flags.{is_tor, listed_as, check_tor}
use ip_unt1_com.Snapshot.{build_snapshot, sort_names}
use ip_unt1_com.Snapshot.Listing.{lister, publisher, seen-build_tables, by_list, by_relay}

abbrev Range : Type 0
Range = Map Addr Text → List (Addr × Text)

abbrev names_of : Map Text SourceData → List Text
names_of sources = sort_names (keys sources)

listed_as-build :
    (range : Range) (sources : Map Text SourceData) (a : Addr)
    → listed_as (build_snapshot range sources) a
      ≡ (by_list
          (lister a sources (names_of sources))
          (by_relay (publisher a sources (names_of sources)) (none, none))).0
unfolding build_snapshot
listed_as-build range sources a = ap (λ s. s.0) (seen-build_tables a sources (names_of sources))

-- An address that the Tor list has last is reported as a Tor exit, with no provider and no relay,
-- also when the feeds of other providers publish it.
pub check-build_tor :
    (range : Range) (sources : Map Text SourceData) (addr : Addr) (asn : AsnInfo)
    → is_valid addr ≡ true
    → lister (canonical_ip addr) sources (names_of sources) ≡ some (bytes "tor")
    → ((check (build_snapshot range sources) addr asn).tor ≡ true)
      × ((check (build_snapshot range sources) addr asn).provider ≡ [])
      × ((check (build_snapshot range sources) addr asn).relay ≡ none)
      × ((check (build_snapshot range sources) addr asn).privacy_proxy ≡ false)
unfolding text_eq bytes
check-build_tor range sources addr asn valid listed =
    let ip = canonical_ip addr in
    let rel = publisher ip sources (names_of sources) in
    check_tor (build_snapshot range sources) addr asn valid (
      ap is_tor (
        listed_as-build range sources ip
        ∙ ap (λ o. (by_list o (by_relay rel (none, none))).0) listed))
