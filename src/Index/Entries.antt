-- ===== src/Index/Entries.antt =====
-- The entries of the index: the ranges they become, and which of them contains an address.
use ip_unt1_com.Prelude.{
  ℕ, ◌≤◌, ◌<◌, ◌≡◌, refl, sym, ◌⊎◌, inl, inr, Bool, true, false, not, ◌&&◌, List, [], ◌∷◌, ◌++◌,
  Option, none, some, Text, leb, if◌then◌else◌, Bool-cases, arith, All, ◌∙◌,
}
use mathlib.Core.List.{append_assoc, append-nil}
use ip_unt1_com.Net.{
  Addr, invalid, v4, v6, is_4, value, zone, is_valid, prefix_is_valid, prefix_contains,
}
use ip_unt1_com.Index.{CidrEntry, IpRange, CidrIndex, add_entries}
use ip_unt1_com.Index.Search.{owner, covers}
use ip_unt1_com.Index.Merge.{Apart}
use ip_unt1_com.Index.Sorting.{AreApart}
use ip_unt1_com.Index.Ranges.{
  IsAddr, entry_range, covers-entry_range, entry_range-nonempty, place, add_entry-place,
}

-- The reference: the provider of the first entry that contains the address.
unfoldable pub entry_owner : Addr → List CidrEntry → Option Text
entry_owner a [] = none
entry_owner a (e ∷ es) = if prefix_contains e.prefix a then some e.provider else entry_owner a es

-- Two entries of one provider, or with no address in common.
abbrev pub Compatible : CidrEntry → CidrEntry → Type 0
Compatible e f =
    (e.provider ≡ f.provider)
    ⊎ ((a : Addr) → prefix_contains e.prefix a ≡ true → prefix_contains f.prefix a ≡ false)

abbrev pub AreCompatible : List CidrEntry → Type 0
AreCompatible [] = Unit
AreCompatible (e ∷ es) = All (Compatible e) es × AreCompatible es

abbrev agree : Bool → Bool → Bool
agree a b = elim a [ true ↦ b | false ↦ not b ]

abbrev is_in : Bool → CidrEntry → Bool
is_in four e = prefix_is_valid e.prefix && agree (is_4 e.prefix.addr) four

-- The ranges of one family, in the order of the entries.
unfoldable pub ranges_in : Bool → List CidrEntry → List IpRange
ranges_in four [] = []
ranges_in four (e ∷ es) =
    let rest = ranges_in four es in if is_in four e then entry_range e ∷ rest else rest

abbrev pub extend : CidrIndex → List CidrEntry → CidrIndex
extend idx es = record {
  ranges4 = idx.ranges4 ++ ranges_in true es;
  ranges6 = idx.ranges6 ++ ranges_in false es;
}

extend-place :
    (idx : CidrIndex) (e : CidrEntry) (es : List CidrEntry)
    → extend (place idx e) es ≡ extend idx (e ∷ es)
unfolding ranges_in
extend-place idx e es = elim (Bool-cases (prefix_is_valid e.prefix)) [
  | inr bad ↦ rw bad
  | inl good ↦ elim (Bool-cases (is_4 e.prefix.addr)) [
    | inl four ↦ rw (good, four, append_assoc)
    | inr six ↦ rw (good, six, append_assoc)
  ]
]

pub add_entries-extend :
    (idx : CidrIndex) (es : List CidrEntry)
    → All (λ e. IsAddr e.prefix.addr) es
    → add_entries idx es ≡ extend idx es
unfolding add_entries ranges_in
add_entries-extend idx [] h = rw (append-nil idx.ranges4, append-nil idx.ranges6)
add_entries-extend idx (e ∷ es) (h, hs) =
    rw (add_entry-place idx e h) (add_entries-extend (place idx e) es hs ∙ extend-place idx e es)

-- A prefix contains an address exactly when it has its family and its interval holds the number.
contains_of :
    (b : Addr) (bits : ℕ) (provider : Text) (a : Addr)
    → zone a ≡ []
    → is_valid a ≡ true
    → let e : CidrEntry = record {
      prefix = record { addr = b; bits = bits };
      provider = provider;
    } in
      prefix_contains e.prefix a ≡ (is_in (is_4 a) e && covers (value a) (entry_range e))
unfolding prefix_contains
contains_of b bits provider invalid z v = ground arith
contains_of invalid bits provider (v4 n) z v = refl
contains_of invalid bits provider (v6 n y) z v = refl
contains_of (v4 m) bits provider (v4 n) z v =
    let c =
      covers-entry_range n
        (record { prefix = record { addr = v4 m; bits = bits }; provider = provider }) in
    elim (Bool-cases (leb bits 32)) [ inl f ↦ rw f (sym c) | inr f ↦ rw f ]
contains_of (v4 m) bits provider (v6 n y) z v = elim (Bool-cases (leb bits 32)) [
  | inl f ↦ rw (f, z)
  | inr f ↦ rw f
]
contains_of (v6 m x) bits provider (v4 n) z v = elim (Bool-cases (leb bits 128)) [
  | inl f ↦ rw f
  | inr f ↦ rw f
]
contains_of (v6 m x) bits provider (v6 n y) z v =
    let c =
      covers-entry_range n
        (record { prefix = record { addr = v6 m x; bits = bits }; provider = provider }) in
    elim (Bool-cases (leb bits 128)) [ inl f ↦ rw (f, z) (sym c) | inr f ↦ rw f ]

prefix_contains-covers :
    (e : CidrEntry) (a : Addr)
    → zone a ≡ []
    → is_valid a ≡ true
    → prefix_contains e.prefix a ≡ (is_in (is_4 a) e && covers (value a) (entry_range e))
prefix_contains-covers e a z v = contains_of e.prefix.addr e.prefix.bits e.provider a z v

pub owner-ranges_in :
    (a : Addr) (es : List CidrEntry)
    → zone a ≡ []
    → is_valid a ≡ true
    → owner (value a) (ranges_in (is_4 a) es) ≡ entry_owner a es
unfolding owner ranges_in entry_owner
owner-ranges_in a [] z v = refl
owner-ranges_in a (e ∷ es) z v =
    let ih = owner-ranges_in a es z v in
    elim (Bool-cases (is_in (is_4 a) e)) [
      | inl here ↦ rw (prefix_contains-covers e a z v, here, ih)
      | inr other ↦ rw (prefix_contains-covers e a z v, other, ih)
    ]

-- Two nonempty intervals are apart or share a number.
apart_or_shared :
    (r s : IpRange)
    → r.first ≤ r.last
    → s.first ≤ s.last
    → ((r.last < s.first) ⊎ (s.last < r.first))
      ⊎ ((x : ℕ) × (covers x r ≡ true) × (covers x s ≡ true))
apart_or_shared r s p q = elim (Bool-cases (leb r.first s.first)) [
  | inl before ↦ elim (Bool-cases (leb s.first r.last)) [
    | inl within ↦ inr (s.first, ground arith, ground arith)
    | inr past ↦ inl (ground arith)
  ]
  | inr after ↦ elim (Bool-cases (leb r.first s.last)) [
    | inl within ↦ inr (r.first, ground arith, ground arith)
    | inr past ↦ inl (ground arith)
  ]
]

-- The address of a family with a number.
abbrev address : Bool → ℕ → Addr
address true x = v4 x
address false x = v6 x []

address-facts :
    (four : Bool) (x : ℕ)
    → (zone (address four x) ≡ [])
      × (is_valid (address four x) ≡ true)
      × (is_4 (address four x) ≡ four)
      × (value (address four x) ≡ x)
address-facts true x = (refl, refl, refl, refl)
address-facts false x = (refl, refl, refl, refl)

Compatible-Apart :
    (four : Bool) (e f : CidrEntry)
    → is_in four e ≡ true
    → is_in four f ≡ true
    → Compatible e f
    → Apart (entry_range e) (entry_range f)
Compatible-Apart four e f p q (inl same) = inl same
Compatible-Apart four e f p q (inr none_shared) =
    elim (apart_or_shared (entry_range e) (entry_range f) (entry_range-nonempty e)
      (entry_range-nonempty f)) [
        | inl apart ↦ inr apart
        | inr (x, ce, cf) ↦
            let (z, v, i, n) = address-facts four x in
            let a : Addr = address four x in
            let he : prefix_contains e.prefix (address four x) ≡ true =
              prefix_contains-covers e a z v ∙ rw (i, n, p, ce) in
            let hf : prefix_contains f.prefix (address four x) ≡ true =
              prefix_contains-covers f a z v ∙ rw (i, n, q, cf) in
            absurd (cc (none_shared (address four x) he))
      ]

ranges_in-All :
    (four : Bool) (e : CidrEntry) (es : List CidrEntry)
    → is_in four e ≡ true
    → All (Compatible e) es
    → All (λ s. Apart (entry_range e) s × (s.first ≤ s.last)) (ranges_in four es)
unfolding ranges_in
ranges_in-All four e [] p h = tt
ranges_in-All four e (f ∷ es) p (h, hs) =
    let ih = ranges_in-All four e es p hs in
    elim (Bool-cases (is_in four f)) [
      | inl here ↦ rw here ((Compatible-Apart four e f p here h, entry_range-nonempty f), ih)
      | inr other ↦ rw other ih
    ]

pub ranges_in-AreApart :
    (four : Bool) (es : List CidrEntry) → AreCompatible es → AreApart (ranges_in four es)
unfolding ranges_in
ranges_in-AreApart four [] h = tt
ranges_in-AreApart four (e ∷ es) (h, hs) =
    let ih = ranges_in-AreApart four es hs in
    elim (Bool-cases (is_in four e)) [
      | inl here ↦ rw here (entry_range-nonempty e, ranges_in-All four e es here h, ih)
      | inr other ↦ rw other ih
    ]
