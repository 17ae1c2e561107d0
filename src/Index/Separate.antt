-- ===== src/Index/Separate.antt =====
-- cidrindex.go: what `sortMerge` leaves between its ranges.
use ip_unt1_com.Prelude.{
  ℕ, ◌+◌, ◌^◌, ◌<◌, ◌≡◌, inl, inr, List, [], ◌∷◌, ltb, length, Bool-cases, arith, All, text_eq,
  text_eq_iff, text_eq_cases, false, true,
}
use ip_unt1_com.Index.{IpRange, merge_from, merge, touches, widen, sort, sort_merge}
use ip_unt1_com.Index.Search.{AreDisjoint}
use ip_unt1_com.Index.Sorting.{AreApart, All-sort, sort_merge-AreDisjoint}

-- The next range does not continue one of its own provider.
abbrev pub HasGap : IpRange → List IpRange → Type 0
HasGap prev [] = Unit
HasGap prev (r ∷ rs) = prev.provider ≡ r.provider → prev.last + 1 < r.first

abbrev pub AreSeparate : List IpRange → Type 0
AreSeparate [] = Unit
AreSeparate (r ∷ rs) = HasGap r rs × AreSeparate rs

-- Ranges of addresses with `w` bits.
abbrev pub AreBounded : ℕ → List IpRange → Type 0
AreBounded w rs = All (λ r. r.first < 2 ^ w) rs

HasGap-widen : (q prev r : IpRange) → HasGap q (prev ∷ []) → HasGap q (widen prev r ∷ [])
HasGap-widen q prev r h = elim (Bool-cases (ltb prev.last r.last)) [
  | inl longer ↦ rw longer h
  | inr inside ↦ rw inside h
]

merge_from-HasGap :
    (w : ℕ) (q prev : IpRange) (rs : List IpRange)
    → HasGap q (prev ∷ [])
    → HasGap q (merge_from w prev rs)
unfolding merge_from
merge_from-HasGap w q prev [] h = h
merge_from-HasGap w q prev (r ∷ rs) h = elim (Bool-cases (text_eq prev.provider r.provider)) [
  | inr differ ↦ rw differ h
  | inl same ↦ elim (Bool-cases (touches w prev r)) [
    | inr apart ↦ rw (same, apart) h
    | inl t ↦ rw (same, t) (merge_from-HasGap w q (widen prev r) rs (HasGap-widen q prev r h))
  ]
]

gap :
    (w : ℕ) (prev r : IpRange)
    → r.first < 2 ^ w
    → touches w prev r ≡ false
    → prev.last + 1 < r.first
gap w prev r h apart = ground arith

merge_from-AreSeparate :
    (w : ℕ) (prev : IpRange) (rs : List IpRange)
    → AreBounded w rs
    → AreSeparate (merge_from w prev rs)
unfolding merge_from
merge_from-AreSeparate w prev [] b = (tt, tt)
merge_from-AreSeparate w prev (r ∷ rs) (h, b) = elim (text_eq_cases prev.provider r.provider) [
  | inr (differ, e) ↦
      rw e (merge_from-HasGap w prev r rs (λ p. absurd (differ p)), merge_from-AreSeparate w r rs b)
  | inl same ↦
      let e : text_eq prev.provider r.provider ≡ true = (text_eq_iff _ _).1 same in
      elim (Bool-cases (touches w prev r)) [
        | inl t ↦ rw (e, t) (merge_from-AreSeparate w (widen prev r) rs b)
        | inr apart ↦
            rw (e, apart)
              (
                merge_from-HasGap w prev r rs (λ p. gap w prev r h apart),
                merge_from-AreSeparate w r rs b,
              )
      ]
]

merge-AreSeparate : (w : ℕ) (rs : List IpRange) → AreBounded w rs → AreSeparate (merge w rs)
merge-AreSeparate w [] b = tt
merge-AreSeparate w (r ∷ rs) (h, b) = merge_from-AreSeparate w r rs b

-- `sortMerge` puts ranges of addresses with `w` bits, any two of them of one provider or disjoint,
-- in ascending order: each ends before the next begins, and between two neighbours of one provider
-- there is an address that neither holds, so that no more of them could be merged.
pub sort_merge-AreSeparate :
    (w : ℕ) (rs : List IpRange)
    → AreApart rs
    → AreBounded w rs
    → AreDisjoint (sort_merge w rs) × AreSeparate (sort_merge w rs)
unfolding sort_merge
sort_merge-AreSeparate w [] h b = (tt, tt)
sort_merge-AreSeparate w (r ∷ []) h b = ((h.0, tt, tt), (tt, tt))
sort_merge-AreSeparate w (r ∷ s ∷ rs) h b =
    let long : ltb (length (r ∷ s ∷ rs)) 2 ≡ false = ground arith in
    let d = sort_merge-AreDisjoint w (r ∷ s ∷ rs) h in
    let bounded = All-sort (λ x. x.first < 2 ^ w) (r ∷ s ∷ rs) b in
    (d, rw long (merge-AreSeparate w (sort (r ∷ s ∷ rs)) bounded))
