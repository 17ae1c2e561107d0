-- ===== src/Index/Merge.antt =====
-- cidrindex.go: the merge loop of `sortMerge`, on ranges in ascending order of their starts.
use ip_unt1_com.Prelude.{
  ℕ, ◌≤◌, ◌<◌, ◌≡◌, refl, ◌⊎◌, inl, inr, Bool, true, false, ◌||◌, List, [], ◌∷◌, some, text_eq,
  text_eq_iff, if◌then◌else◌, Bool-cases, arith, All, ◌∙◌, text_eq_cases, ap,
}
use ip_unt1_com.Index.{IpRange, merge_from, merge, touches, widen}
use ip_unt1_com.Index.Search.{owner, covers, StartsAfter, AreDisjoint}

-- Two ranges of one provider, or disjoint ones.
abbrev pub Apart : IpRange → IpRange → Type 0
Apart r s = (r.provider ≡ s.provider) ⊎ (r.last < s.first) ⊎ (s.last < r.first)

-- What a range of a sorted list knows of a later one.
abbrev pub Precedes : IpRange → IpRange → Type 0
Precedes r s = (s.first ≤ s.last) × (r.first ≤ s.first) × Apart r s

abbrev pub IsChain : List IpRange → Type 0
IsChain [] = Unit
IsChain (r ∷ rs) = (r.first ≤ r.last) × All (Precedes r) rs × IsChain rs

merge_from-StartsAfter :
    (w b : ℕ) (prev : IpRange) (rs : List IpRange)
    → b < prev.first
    → StartsAfter b (merge_from w prev rs)
unfolding merge_from
merge_from-StartsAfter w b prev [] h = h
merge_from-StartsAfter w b prev (r ∷ rs) h =
    ground (arith, merge_from-StartsAfter w b (widen prev r) rs)

module _ (w : ℕ) (prev r : IpRange) (same : prev.provider ≡ r.provider) where
  Precedes-widen : (x : IpRange) → Precedes prev x → Precedes r x → Precedes (widen prev r) x
  Precedes-widen x p q = ground arith

  All-Precedes-widen :
      (rs : List IpRange)
      → All (Precedes prev) rs
      → All (Precedes r) rs
      → All (Precedes (widen prev r)) rs
  All-Precedes-widen [] p q = tt
  All-Precedes-widen (x ∷ rs) (p, ps) (q, qs) = (Precedes-widen x p q, All-Precedes-widen rs ps qs)

  covers-widen :
      (ip : ℕ)
      → prev.first ≤ prev.last
      → Precedes prev r
      → touches w prev r ≡ true
      → covers ip (widen prev r) ≡ (covers ip prev || covers ip r)
  covers-widen ip le p t = ground arith

  widen-provider : (widen prev r).provider ≡ prev.provider
  widen-provider = ground arith

  owner-widen :
      (ip : ℕ) (rs : List IpRange)
      → covers ip (widen prev r) ≡ (covers ip prev || covers ip r)
      → owner ip (widen prev r ∷ rs) ≡ owner ip (prev ∷ r ∷ rs)
  unfolding owner
  owner-widen ip rs e = rw (e, widen-provider) (cases (covers ip prev) (covers ip r))
    where
      cases :
          (a b : Bool)
          → (if a || b then some prev.provider else owner ip rs)
            ≡ (if a then some prev.provider else if b then some r.provider else owner ip rs)
      cases true b = refl
      cases false true = ap some same
      cases false false = refl

-- The two facts about the output.
abbrev IsMerged : ℕ → IpRange → List IpRange → Type 0
IsMerged w prev rs =
    AreDisjoint (merge_from w prev rs)
    × ((ip : ℕ) → owner ip (merge_from w prev rs) ≡ owner ip (prev ∷ rs))

module _ (w : ℕ) (prev r : IpRange) (rs : List IpRange) where
  IsMerged-push :
      prev.first ≤ prev.last
      → prev.last < r.first
      → IsMerged w r rs
      → AreDisjoint (prev ∷ merge_from w r rs)
        × ((ip : ℕ) → owner ip (prev ∷ merge_from w r rs) ≡ owner ip (prev ∷ r ∷ rs))
  unfolding owner
  IsMerged-push le lt (d, o) =
      ((le, merge_from-StartsAfter w prev.last r rs lt, d), λ ip. rw (o ip))

pub merge_from-IsMerged :
    (w : ℕ) (prev : IpRange) (rs : List IpRange) → IsChain (prev ∷ rs) → IsMerged w prev rs
unfolding merge_from
merge_from-IsMerged w prev [] (le, _, _) = ((le, tt, tt), λ ip. refl)
merge_from-IsMerged w prev (r ∷ rs) (le, (p, ps), (le', qs, c)) =
    elim (text_eq_cases prev.provider r.provider) [
      | inr (differ, e) ↦
          rw e
            (IsMerged-push w prev r rs le (ground arith) (merge_from-IsMerged w r rs (le', qs, c)))
      | inl same ↦
          let e : text_eq prev.provider r.provider ≡ true = (text_eq_iff _ _).1 same in
          elim (Bool-cases (touches w prev r)) [
            | inr apart ↦
                rw (e, apart)
                  (IsMerged-push w prev r rs le (ground arith)
                    (merge_from-IsMerged w r rs (le', qs, c)))
            | inl t ↦
                let chain = (All-Precedes-widen w prev r same rs ps qs) in
                let (d, o) = merge_from-IsMerged w (widen prev r) rs (ground arith, chain, c) in
                rw (e, t)
                  (
                    d,
                    λ ip.
                        o ip
                        ∙ owner-widen w prev r same ip rs (covers-widen w prev r same ip le p t),
                  )
          ]
    ]

pub merge-AreDisjoint : (w : ℕ) (rs : List IpRange) → IsChain rs → AreDisjoint (merge w rs)
merge-AreDisjoint w [] c = tt
merge-AreDisjoint w (r ∷ rs) c = (merge_from-IsMerged w r rs c).0

pub owner-merge :
    (w : ℕ) (rs : List IpRange) (ip : ℕ) → IsChain rs → owner ip (merge w rs) ≡ owner ip rs
owner-merge w [] ip c = refl
owner-merge w (r ∷ rs) ip c = (merge_from-IsMerged w r rs c).1 ip
