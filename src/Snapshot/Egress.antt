-- ===== src/Snapshot/Egress.antt =====
-- What a verdict on a derived snapshot says of the published egress ranges.
use ip_unt1_com.Prelude.{
  ◌≡◌, refl, inl, inr, ◌∙◌, ap, sym, subst, All-append, Bool, true, false, not, ◌&&◌, ◌||◌, List,
  [], ◌∷◌, ◌++◌, Text, text_eq, text_eq_iff, text_instance, Map, lookup, keys, is_some, any, map,
  All, Option-cases, Bool-cases, arith,
}
use ip_unt1_com.Net.{Addr, Prefix, is_valid, canonical_ip, prefix_contains}
use ip_unt1_com.Net.Equality.{addr_instance}
use ip_unt1_com.Net.Canonical.{canonical_ip_idem}
use ip_unt1_com.Index.{CidrEntry}
use ip_unt1_com.Index.Ranges.{IsAddr}
use ip_unt1_com.Index.Entries.{entry_owner, Compatible, AreCompatible}
use ip_unt1_com.Index.Lookup.{lookup_ip-build}
use ip_unt1_com.Asn.{AsnInfo}
use ip_unt1_com.Vpn.{SourceData, check}
use ip_unt1_com.Vpn.Flags.{Flags, listed_as, in_egress, check-flags}
use ip_unt1_com.Snapshot.{source_of, data_or_empty, cidr_entries, build_snapshot, sort_names}
use ip_unt1_com.Snapshot.Refresh.{named, named-sort_names, named-keys}

abbrev pub covered : Addr → List Prefix → Bool
covered a ps = any (λ p. prefix_contains p a) ps

abbrev entry_covers : Addr → CidrEntry → Bool
entry_covers a e = prefix_contains e.prefix a

owner-any : (a : Addr) (es : List CidrEntry) → is_some (entry_owner a es) ≡ any (entry_covers a) es
unfolding entry_owner
owner-any a [] = refl
owner-any a (e ∷ es) = ground (arith, owner-any a es)

any-append :
    (f : CidrEntry → Bool) (es fs : List CidrEntry) → any f (es ++ fs) ≡ (any f es || any f fs)
any-append f [] fs = refl
any-append f (e ∷ es) fs = ground (arith, any-append f es fs)

abbrev entries_of : Text → List Prefix → List CidrEntry
entries_of n ps = map (λ p. record { prefix = p; provider = n }) ps

any-entries_of :
    (a : Addr) (n : Text) (ps : List Prefix) → any (entry_covers a) (entries_of n ps) ≡ covered a ps
any-entries_of a n [] = refl
any-entries_of a n (p ∷ ps) = ground (arith, any-entries_of a n ps)

-- Only the feed `p` publishes ranges.
abbrev pub IsOnlyFeed : Text → Map Text SourceData → Type 0
IsOnlyFeed p sources = (n : Text) → text_eq n p ≡ false → (source_of n sources).cidrs ≡ []

abbrev pub AreAddrs : List CidrEntry → Type 0
AreAddrs es = All (λ e. IsAddr e.prefix.addr) es

Compatible-one :
    (p : Text) (e : CidrEntry) (es : List CidrEntry)
    → e.provider ≡ p
    → All (λ f. f.provider ≡ p) es
    → All (Compatible e) es
Compatible-one p e [] h all = tt
Compatible-one p e (f ∷ es) h all = (inl (h ∙ sym all.0), Compatible-one p e es h all.1)

AreCompatible-one :
    (p : Text) (es : List CidrEntry) → All (λ e. e.provider ≡ p) es → AreCompatible es
AreCompatible-one p [] h = tt
AreCompatible-one p (e ∷ es) h = (Compatible-one p e es h.0 h.1, AreCompatible-one p es h.1)

AreOne-entries_of :
    (n : Text) {p : Text} (ps : List Prefix) → n ≡ p → All (λ e. e.provider ≡ p) (entries_of n ps)
AreOne-entries_of n [] e = tt
AreOne-entries_of n (q ∷ ps) e = (e, AreOne-entries_of n ps e)

module _ (p : Text) (sources : Map Text SourceData) (only : IsOnlyFeed p sources) where
  any-cidr_entries :
      (a : Addr) (names : List Text)
      → any (entry_covers a) (cidr_entries sources names)
        ≡ (named p names && covered a (source_of p sources).cidrs)
  unfolding cidr_entries
  any-cidr_entries a [] = refl
  any-cidr_entries a (n ∷ names) =
      let cs = (source_of n sources).cidrs in
      let split = any-append (entry_covers a) (entries_of n cs) (cidr_entries sources names) in
      let rest = any-cidr_entries a names in
      let own = any-entries_of a n cs in
      elim (Bool-cases (text_eq n p)) [
        | inl same ↦
            let e : n ≡ p = ground (arith, text_eq_iff n p) in
            let one = ap (λ m. covered a (source_of m sources).cidrs) e in
            ground (arith, split, rest, own, one, same)
        | inr other ↦
            let none_here = ap (λ ps. any (entry_covers a) (entries_of n ps)) (only n other) in
            ground (arith, split, rest, none_here, other)
      ]

  AreOne : List CidrEntry → Type 0
  AreOne es = All (λ e. e.provider ≡ p) es

  AreOne-cidr_entries : (names : List Text) → AreOne (cidr_entries sources names)
  unfolding AreOne cidr_entries
  AreOne-cidr_entries [] = tt
  AreOne-cidr_entries (n ∷ names) =
      let cs = (source_of n sources).cidrs in
      let rest = AreOne-cidr_entries names in
      elim (Bool-cases (text_eq n p)) [
        | inl same ↦
            let e : n ≡ p = ground (arith, text_eq_iff n p) in
            All-append (λ e. e.provider ≡ p) (entries_of n cs) (cidr_entries sources names)
              (AreOne-entries_of n cs e) rest
        | inr other ↦
            subst (λ ps. AreOne (entries_of n ps ++ cidr_entries sources names))
              (sym (only n other)) rest
      ]

  covered-named :
      (a : Addr)
      → (named p (sort_names (keys sources)) && covered a (source_of p sources).cidrs)
        ≡ covered a (source_of p sources).cidrs
  covered-named a = elim (Option-cases (lookup p sources)) [
    | inl gone ↦
        let blank = ap (λ o. covered a (data_or_empty o).cidrs) gone in ground (arith, blank)
    | inr (d, there) ↦
        ground (arith, named-sort_names p (keys sources), named-keys p sources (ap is_some there))
  ]

  in_egress-build :
      (range : Map Addr Text → List (Addr × Text)) (a : Addr)
      → AreAddrs (cidr_entries sources (sort_names (keys sources)))
      → in_egress (build_snapshot range sources) a
        ≡ covered (canonical_ip a) (source_of p sources).cidrs
  unfolding build_snapshot AreOne
  in_egress-build range a addrs =
      let names = sort_names (keys sources) in
      let es = cidr_entries sources names in
      ap is_some (lookup_ip-build es a addrs (AreCompatible-one p es (AreOne-cidr_entries names)))
      ∙ owner-any (canonical_ip a) es
      ∙ any-cidr_entries (canonical_ip a) names
      ∙ covered-named (canonical_ip a)

  -- Where one feed publishes egress ranges, an address is reported as a privacy proxy exactly when
  -- no address list names it and one of the ranges of that feed contains it, whatever is merged,
  -- sorted and searched in between.
  pub check-build_egress :
      (range : Map Addr Text → List (Addr × Text)) (addr : Addr) (asn : AsnInfo)
      → is_valid addr ≡ true
      → AreAddrs (cidr_entries sources (sort_names (keys sources)))
      → (check (build_snapshot range sources) addr asn).privacy_proxy ≡ (
          not (is_some (listed_as (build_snapshot range sources) (canonical_ip addr)))
          && covered (canonical_ip addr) (source_of p sources).cidrs)
  check-build_egress range addr asn valid addrs =
      let snap = build_snapshot range sources in
      let hit = not (is_some (listed_as snap (canonical_ip addr))) in
      ap (λ (f : Flags). f.3) (check-flags snap addr asn valid)
      ∙ ap (λ b. hit && b)
          (in_egress-build range (canonical_ip addr) addrs
            ∙ ap (λ a. covered a (source_of p sources).cidrs) (canonical_ip_idem addr))
