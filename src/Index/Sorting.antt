-- ===== src/Index/Sorting.antt =====
-- cidrindex.go: the sort of `sortMerge`, and with the merge loop and the search the whole of
-- `sortMerge` and `Lookup`.
use ip_unt1_com.Prelude.{
  ℕ, ◌≤◌, ◌≡◌, refl, inl, inr, false, List, [], ◌∷◌, some, ltb, if◌then◌else◌, length, Bool-cases,
  arith, All, ◌∙◌,
}
use ip_unt1_com.Index.{IpRange, less, insert_sorted, sort, sort_merge, lookup_ranges}
use ip_unt1_com.Index.Search.{owner, covers, AreDisjoint, lookup_ranges-owner}
use ip_unt1_com.Index.Merge.{Apart, Precedes, IsChain, merge-AreDisjoint, owner-merge}

-- Nonempty ranges, any two of one provider or disjoint.
abbrev pub AreApart : List IpRange → Type 0
AreApart [] = Unit
AreApart (r ∷ rs) = (r.first ≤ r.last) × All (λ s. Apart r s × (s.first ≤ s.last)) rs × AreApart rs

abbrev Compatible : IpRange → IpRange → Type 0
Compatible r s = Apart r s × (s.first ≤ s.last)

-- A fact of every range of a list and of the inserted one holds after the insertion.
All-insert_sorted {κ} :
    (P : IpRange → Type κ) (r : IpRange) (rs : List IpRange)
    → P r
    → All P rs
    → All P (insert_sorted r rs)
unfolding insert_sorted
All-insert_sorted P r [] p ps = (p, tt)
All-insert_sorted P r (x ∷ xs) p (q, qs) = elim (Bool-cases (less x r)) [
  | inl before ↦ rw before (q, All-insert_sorted P r xs p qs)
  | inr after ↦ rw after (p, (q, qs))
]

pub All-sort {κ} : (P : IpRange → Type κ) (rs : List IpRange) → All P rs → All P (sort rs)
unfolding sort
All-sort P [] ps = tt
All-sort P (r ∷ rs) (p, ps) = All-insert_sorted P r (sort rs) p (All-sort P rs ps)

Precedes-trans :
    (r x : IpRange) (rs : List IpRange)
    → r.first ≤ x.first
    → All (Precedes x) rs
    → All (Compatible r) rs
    → All (Precedes r) rs
Precedes-trans r x [] h p c = tt
Precedes-trans r x (s ∷ rs) h ((a, b, _), ps) ((c, _), cs) =
    ((a, omega arith, c), Precedes-trans r x rs h ps cs)

insert_sorted-IsChain :
    (r : IpRange) (rs : List IpRange)
    → r.first ≤ r.last
    → All (Compatible r) rs
    → IsChain rs
    → IsChain (insert_sorted r rs)
unfolding insert_sorted
insert_sorted-IsChain r [] le c h = (le, tt, tt)
insert_sorted-IsChain r (x ∷ xs) le (c, cs) (lx, ps, h) = elim (Bool-cases (less x r)) [
  | inl before ↦
      let apart : Apart x r = ground (arith, c.0) in
      rw before (
        lx,
        All-insert_sorted (Precedes x) r xs (le, ground arith, apart) ps,
        insert_sorted-IsChain r xs le cs h,
      )
  | inr after ↦
      let first : r.first ≤ x.first = ground arith in
      rw after (le, ((lx, first, c.0), Precedes-trans r x xs first ps cs), (lx, ps, h))
]

owner-insert_sorted :
    (ip : ℕ) (r : IpRange) (rs : List IpRange)
    → All (Compatible r) rs
    → owner ip (insert_sorted r rs) ≡ owner ip (r ∷ rs)
unfolding insert_sorted owner
owner-insert_sorted ip r [] c = refl
owner-insert_sorted ip r (x ∷ xs) (c, cs) = elim (Bool-cases (less x r)) [
  | inr after ↦ rw after
  | inl before ↦ rw (before, owner-insert_sorted ip r xs cs) (swap c.0)
]
  where
    swap :
        Apart r x
        → (if covers ip x
            then some x.provider
            else if covers ip r
            then some r.provider
            else owner ip xs)
          ≡ (if covers ip r
              then some r.provider
              else if covers ip x
              then some x.provider
              else owner ip xs)
    swap a = ground arith

sort-IsChain : (rs : List IpRange) → AreApart rs → IsChain (sort rs)
unfolding sort
sort-IsChain [] h = tt
sort-IsChain (r ∷ rs) (le, c, h) =
    insert_sorted-IsChain r (sort rs) le (All-sort (Compatible r) rs c) (sort-IsChain rs h)

owner-sort : (ip : ℕ) (rs : List IpRange) → AreApart rs → owner ip (sort rs) ≡ owner ip rs
unfolding sort owner
owner-sort ip [] h = refl
owner-sort ip (r ∷ rs) (le, c, h) =
    owner-insert_sorted ip r (sort rs) (All-sort (Compatible r) rs c) ∙ rw (owner-sort ip rs h)

-- `sortMerge` puts ranges that are pairwise of one provider or disjoint in ascending order, each
-- ending before the next begins, which is what the binary search needs.
pub sort_merge-AreDisjoint :
    (w : ℕ) (rs : List IpRange) → AreApart rs → AreDisjoint (sort_merge w rs)
unfolding sort_merge
sort_merge-AreDisjoint w [] h = tt
sort_merge-AreDisjoint w (r ∷ []) h = (h.0, tt, tt)
sort_merge-AreDisjoint w (r ∷ s ∷ rs) h =
    let long : ltb (length (r ∷ s ∷ rs)) 2 ≡ false = ground arith in
    rw long (merge-AreDisjoint w (sort (r ∷ s ∷ rs)) (sort-IsChain (r ∷ s ∷ rs) h))

owner-sort_merge :
    (w : ℕ) (rs : List IpRange) (ip : ℕ) → AreApart rs → owner ip (sort_merge w rs) ≡ owner ip rs
unfolding sort_merge
owner-sort_merge w [] ip h = refl
owner-sort_merge w (r ∷ []) ip h = refl
owner-sort_merge w (r ∷ s ∷ rs) ip h =
    let long : ltb (length (r ∷ s ∷ rs)) 2 ≡ false = ground arith in
    rw long (
      owner-merge w (sort (r ∷ s ∷ rs)) ip (sort-IsChain (r ∷ s ∷ rs) h)
      ∙ owner-sort ip (r ∷ s ∷ rs) h)

-- The search in the merged ranges answers as the scan of the ranges that were given.
pub lookup_ranges-sort_merge :
    (w : ℕ) (rs : List IpRange) (ip : ℕ)
    → AreApart rs
    → lookup_ranges (sort_merge w rs) ip ≡ owner ip rs
lookup_ranges-sort_merge w rs ip h =
    lookup_ranges-owner (sort_merge w rs) ip (sort_merge-AreDisjoint w rs h)
    ∙ owner-sort_merge w rs ip h
