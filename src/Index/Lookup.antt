-- ===== src/Index/Lookup.antt =====
-- cidrindex.go: the whole index, from the entries to the answer of `Lookup`, against a scan of the
-- entries by `Prefix.Contains`.
use ip_unt1_com.Prelude.{
  ℕ, ◌≡◌, refl, sym, inl, inr, Bool, true, false, List, [], ◌∷◌, none, some, Bool-cases, arith, All,
  ◌∙◌,
}
use ip_unt1_com.Net.{
  Addr, invalid, v4, v6, is_4, value, zone, is_valid, canonical_ip, prefix_contains,
}
use ip_unt1_com.Net.Canonical.{canonical_ip-IsCanonical, is_valid-canonical_ip}
use ip_unt1_com.Index.{
  CidrEntry, empty_index, build_cidr_index, lookup_ip, lookup_ranges, sort_merge,
}
use ip_unt1_com.Index.Sorting.{lookup_ranges-sort_merge}
use ip_unt1_com.Index.Ranges.{IsAddr}
use ip_unt1_com.Index.Entries.{
  entry_owner, AreCompatible, ranges_in, add_entries-extend, owner-ranges_in, ranges_in-AreApart,
}

module _ (es : List CidrEntry) (bounded : All (λ e. IsAddr e.prefix.addr) es)
    (apart : AreCompatible es) where
  build-lookup :
      (w : ℕ) (four : Bool) (a : Addr)
      → zone a ≡ []
      → is_valid a ≡ true
      → is_4 a ≡ four
      → lookup_ranges (sort_merge w (ranges_in four es)) (value a) ≡ entry_owner a es
  build-lookup w four a z v i =
      lookup_ranges-sort_merge w (ranges_in four es) (value a) (ranges_in-AreApart four es apart)
      ∙ rw (← i) (owner-ranges_in a es z v)

  built : build_cidr_index es ≡ record {
    ranges4 = sort_merge 32 (ranges_in true es);
    ranges6 = sort_merge 128 (ranges_in false es);
  }
  unfolding build_cidr_index
  built = rw (add_entries-extend empty_index es bounded)

  pub lookup_ip-build_valid :
      (a : Addr)
      → is_valid a ≡ true
      → lookup_ip (some (build_cidr_index es)) a ≡ entry_owner (canonical_ip a) es
  unfolding lookup_ip
  lookup_ip-build_valid a v =
      let (z, _) = canonical_ip-IsCanonical a in
      let valid : is_valid (canonical_ip a) ≡ true = is_valid-canonical_ip a ∙ v in
      elim (Bool-cases (is_4 (canonical_ip a))) [
        | inl four ↦ rw (built, v, four) (build-lookup 32 true (canonical_ip a) z valid four)
        | inr six ↦ rw (built, v, six) (build-lookup 128 false (canonical_ip a) z valid six)
      ]

entry_owner-invalid : (es : List CidrEntry) → entry_owner invalid es ≡ none
unfolding entry_owner prefix_contains
entry_owner-invalid [] = refl
entry_owner-invalid (e ∷ es) = ground (arith, entry_owner-invalid es)

lookup_ip-build_invalid :
    (es : List CidrEntry) (a : Addr)
    → is_valid a ≡ false
    → lookup_ip (some (build_cidr_index es)) a ≡ entry_owner (canonical_ip a) es
unfolding lookup_ip canonical_ip
lookup_ip-build_invalid es invalid bad = sym (entry_owner-invalid es)
lookup_ip-build_invalid es (v4 n) bad = cc
lookup_ip-build_invalid es (v6 n z) bad = cc

-- Built from entries of which any two have one provider or no address in common, the index
-- answers at every address what the scan of the entries by `Prefix.Contains` answers for the
-- address in canonical form.
pub lookup_ip-build :
    (es : List CidrEntry) (a : Addr)
    → All (λ e. IsAddr e.prefix.addr) es
    → AreCompatible es
    → lookup_ip (some (build_cidr_index es)) a ≡ entry_owner (canonical_ip a) es
lookup_ip-build es a h c = elim (Bool-cases (is_valid a)) [
  | inl v ↦ lookup_ip-build_valid es h c a v
  | inr bad ↦ lookup_ip-build_invalid es a bad
]
