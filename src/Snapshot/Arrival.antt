-- ===== src/Snapshot/Arrival.antt =====
-- vpn.go: the order in which the results of a refresh arrive, and the verdict.
use ip_unt1_com.Prelude.{
  ◌≡◌, refl, Bool, true, not, List, [], ◌∷◌, ◌++◌, Text, if◌then◌else◌, Map, keys, text_instance,
  ◌∙◌, ap, sym, map, is_empty, ◌&&◌,
}
use ip_unt1_com.Net.{Addr}
use ip_unt1_com.Index.{CidrEntry, build_cidr_index}
use ip_unt1_com.Asn.{AsnInfo}
use ip_unt1_com.Vpn.{
  SourceData, source_is_empty, VpnSnapshot, check, check_exact, check_near, check_cidr,
}
use ip_unt1_com.Snapshot.{
  FetchResult, Merged, merge_results, refresh, build_snapshot, build_tables, any_loaded, source_of,
  sort_names, cidr_entries, add_sources, add_relays, mark_sources, mark_addrs, Tables, derive_nets,
  no_tables,
}
use ip_unt1_com.Snapshot.Same.{Reordered, IsSame, IsSame-refl, AreSame-reordered}

-- What is derived of sources that hold the same.
module _ (m n : Map Text SourceData) (h : IsSame m n) where
  add_sources-same :
      (t : Tables) (names : List Text) → add_sources m t names ≡ add_sources n t names
  unfolding add_sources
  add_sources-same t [] = refl
  add_sources-same t (k ∷ names) =
      add_sources-same (add_relays t (source_of k m).relays) names
      ∙ ap (λ c. add_sources n (add_relays t c.0) names) (h.held k)

  mark_sources-same :
      (t : Tables) (names : List Text) → mark_sources m t names ≡ mark_sources n t names
  unfolding mark_sources
  mark_sources-same t [] = refl
  mark_sources-same t (k ∷ names) =
      mark_sources-same (mark_addrs k t (source_of k m).addrs) names
      ∙ ap (λ c. mark_sources n (mark_addrs k t c.1) names) (h.held k)

  build_tables-same : (names : List Text) → build_tables m names ≡ build_tables n names
  unfolding build_tables
  build_tables-same names =
      mark_sources-same (add_sources m no_tables names) names
      ∙ ap (λ t. mark_sources n t names) (add_sources-same no_tables names)

  cidr_entries-same : (names : List Text) → cidr_entries m names ≡ cidr_entries n names
  unfolding cidr_entries
  cidr_entries-same [] = refl
  cidr_entries-same (k ∷ names) =
      ap (λ es. map (λ p. record { prefix = p; provider = k }) (source_of k m).cidrs ++ es)
        (cidr_entries-same names)
      ∙ ap (λ c. map (λ p. record { prefix = p; provider = k }) c.2 ++ cidr_entries n names)
          (h.held k)

  source_is_empty-same :
      (k : Text) → source_is_empty (source_of k m) ≡ source_is_empty (source_of k n)
  source_is_empty-same k = ap (λ c. is_empty c.0 && is_empty c.1 && is_empty c.2) (h.held k)

  any_loaded-same : (names : List Text) → any_loaded m names ≡ any_loaded n names
  unfolding any_loaded
  any_loaded-same [] = refl
  any_loaded-same (k ∷ names) =
      ap (λ b. if not (source_is_empty (source_of k m)) then true else b) (any_loaded-same names)
      ∙ ap (λ b. if not b then true else any_loaded n names) (source_is_empty-same k)

  build_snapshot-same :
      (range : Map Addr Text → List (Addr × Text))
      → record (build_snapshot range m) { sources = [] }
        ≡ record (build_snapshot range n) { sources = [] }
  unfolding build_snapshot
  build_snapshot-same range =
      let names = sort_names (keys m) in
      let derived : Tables → List CidrEntry → Bool → VpnSnapshot = λ t es b. record {
        sources = [];
        ips = t.ips;
        relays = t.relays;
        ip_nets = derive_nets [] (range t.ips);
        cidrs = build_cidr_index es;
        ready = b;
      } in
      ap (λ t. derived t (cidr_entries m names) (any_loaded m names)) (build_tables-same names)
      ∙ ap (λ es. derived (build_tables n names) es (any_loaded m names)) (cidr_entries-same names)
      ∙ ap (λ b. derived (build_tables n names) (cidr_entries n names) b) (any_loaded-same names)
      ∙ ap (λ ks. derived (build_tables n ks) (cidr_entries n ks) (any_loaded n ks)) h.names

-- The verdict does not read the data of the feeds.
check-sources :
    (snap : VpnSnapshot) (ip : Addr) (asn : AsnInfo)
    → check snap ip asn ≡ check (record snap { sources = [] }) ip asn
unfolding check check_exact check_near check_cidr
check-sources snap ip asn = refl

-- Two refreshes whose fetches bring the same, in another order of arrival and at other times, lead
-- to the same verdict on every address.
pub check-reordered :
    (range : Map Addr Text → List (Addr × Text)) (prev : VpnSnapshot) {rs ss : List FetchResult}
    → Reordered rs ss
    → (ip : Addr) (asn : AsnInfo)
    → check (refresh range prev rs).0 ip asn ≡ check (refresh range prev ss).0 ip asn
unfolding refresh
check-reordered range prev {rs} {ss} p ip asn =
    let m : Merged = record { sources = prev.sources; errs = []; fresh = 0 } in
    let same = AreSame-reordered p m m (IsSame-refl prev.sources) in
    let old = (merge_results m rs).sources in
    let new = (merge_results m ss).sources in
    check-sources (build_snapshot range old) ip asn
    ∙ ap (λ s. check s ip asn) (build_snapshot-same old new same range)
    ∙ sym (check-sources (build_snapshot range new) ip asn)
