-- ===== src/Hints/Brands.antt =====
-- Which brand is taken of those that a browser names.
use ip_unt1_com.Prelude.{
  ◌≡◌, refl, Bool, true, false, not, ◌&&◌, ◌||◌, List, [], ◌∷◌, some, Text, bytes, text_eq,
  text_eq_iff, Bool-cases, Option-cases, inl, inr, arith, ◌∙◌, ap, sym, any, is_some, All,
}
use ip_unt1_com.Strings.{to_lower, lower, contains_text, equal_fold, has_prefix}
use ip_unt1_com.Hints.Wanted.{pick_first-fold, is_wanted, pick_brand-wanted}
use ip_unt1_com.Hints.{
  Cand, pick_first, pick_wanted, wanted_brands, is_grease, is_chromium, pick_other, pick_brand,
}

abbrev pub is_real : Cand → Bool
is_real c = not (is_grease c.brand)

-- A real brand other than Chromium.
abbrev pub is_named : Cand → Bool
is_named c = is_real c && not (is_chromium c.brand)

is_grease-fold : (a b : Text) → equal_fold a b ≡ true → is_grease a ≡ is_grease b
unfolding is_grease equal_fold
is_grease-fold a b h =
    let e : to_lower a ≡ to_lower b = ground (arith, text_eq_iff (to_lower a) (to_lower b)) in rw e

is_chromium-fold : (a b : Text) → equal_fold a b ≡ true → is_chromium a ≡ is_chromium b
unfolding equal_fold
is_chromium-fold a b h =
    let e : to_lower a ≡ to_lower b = ground (arith, text_eq_iff (to_lower a) (to_lower b)) in rw e

abbrev IsWanted : Text → Type 0
IsWanted w = (is_grease w ≡ false) × (is_chromium w ≡ false)

wanted_brands-IsWanted : All IsWanted wanted_brands
unfolding wanted_brands is_grease bytes to_lower lower contains_text has_prefix text_eq
wanted_brands-IsWanted = (
  (refl, refl),
  ((refl, refl), ((refl, refl), ((refl, refl), ((refl, refl), ((refl, refl), tt))))),
)

chromium-IsReal : is_grease (bytes "Chromium") ≡ false
unfolding is_grease bytes to_lower lower contains_text has_prefix
chromium-IsReal = refl

chromium-is_chromium : is_chromium (bytes "Chromium") ≡ true
unfolding bytes to_lower lower text_eq
chromium-is_chromium = refl

pick_wanted-named :
    (cs : List Cand) (ws : List Text) (c : Cand)
    → All IsWanted ws
    → pick_wanted cs ws ≡ some c
    → is_named c ≡ true
unfolding pick_wanted
pick_wanted-named cs [] c all h = absurd (ground arith)
pick_wanted-named cs (w ∷ ws) c all h = elim (Option-cases (pick_first cs w)) [
  | inl none_here ↦ pick_wanted-named cs ws c all.1 (ground arith)
  | inr (d, here) ↦
      let e : d ≡ c = ground arith in
      let fold = pick_first-fold cs w d here in
      ground (arith, e, all.0, is_grease-fold d.brand w fold, is_chromium-fold d.brand w fold)
]

pick_other-named : (cs : List Cand) (c : Cand) → pick_other cs ≡ some c → is_named c ≡ true
unfolding pick_other
pick_other-named [] c h = absurd (ground arith)
pick_other-named (d ∷ cs) c h = ground (arith, h, pick_other-named cs c)

pick_other-none : (cs : List Cand) → is_some (pick_other cs) ≡ any is_named cs
unfolding pick_other
pick_other-none [] = refl
pick_other-none (d ∷ cs) = ground (arith, pick_other-none cs)

any-pick_first :
    (cs : List Cand) (w : Text) (c : Cand)
    → pick_first cs w ≡ some c
    → is_named c ≡ true
    → any is_named cs ≡ true
unfolding pick_first
any-pick_first [] w c h n = absurd (ground arith)
any-pick_first (d ∷ cs) w c h n = elim (Bool-cases (equal_fold d.brand w)) [
  | inl hit ↦ let e : d ≡ c = ground arith in ground (arith, ap is_named e)
  | inr miss ↦ let rest = any-pick_first cs w c (ground arith) n in ground (arith, rest)
]

any-pick_wanted :
    (cs : List Cand) (ws : List Text) (c : Cand)
    → pick_wanted cs ws ≡ some c
    → is_named c ≡ true
    → any is_named cs ≡ true
unfolding pick_wanted
any-pick_wanted cs [] c h n = absurd (ground arith)
any-pick_wanted cs (w ∷ ws) c h n = elim (Option-cases (pick_first cs w)) [
  | inl none_here ↦ any-pick_wanted cs ws c (ground arith) n
  | inr (d, here) ↦ let e : d ≡ c = ground arith in any-pick_first cs w d here (ap is_named e ∙ n)
]

chromium-fold :
    (cs : List Cand) (c : Cand)
    → pick_first cs (bytes "Chromium") ≡ some c
    → (is_grease c.brand ≡ false) × (is_chromium c.brand ≡ true)
chromium-fold cs c h =
    let fold = pick_first-fold cs (bytes "Chromium") c h in
    (
      is_grease-fold c.brand (bytes "Chromium") fold ∙ chromium-IsReal,
      is_chromium-fold c.brand (bytes "Chromium") fold ∙ chromium-is_chromium,
    )

-- The brand that is taken passes the test for made-up ones, and is Chromium exactly when no other
-- brand that passes it is named.
pick_brand_chromium :
    (cs : List Cand) (c : Cand)
    → pick_brand cs ≡ some c
    → (is_grease c.brand ≡ false) × (is_chromium c.brand ≡ not (any is_named cs))
unfolding pick_brand
pick_brand_chromium cs c h = elim (Option-cases (pick_wanted cs wanted_brands)) [
  | inr (d, wanted) ↦
      let e : d ≡ c = ground arith in
      let n =
        sym (ap is_named e) ∙ pick_wanted-named cs wanted_brands d wanted_brands-IsWanted wanted in
      let found = any-pick_wanted cs wanted_brands d wanted (ap is_named e ∙ n) in
      ground (arith, n, found)
  | inl no_wanted ↦ elim (Option-cases (pick_other cs)) [
    | inr (d, other) ↦
        let e : d ≡ c = ground arith in
        let n = sym (ap is_named e) ∙ pick_other-named cs d other in
        ground (arith, n, pick_other-none cs)
    | inl no_other ↦
        let last = chromium-fold cs c (ground arith) in ground (arith, last, pick_other-none cs)
  ]
]

-- The brand that is taken, if one is, does not contain "not" together with "brand" or an
-- underscore, in any case of the letters, which is what the code takes for made-up; it is one of
-- the six that are looked for first exactly when one of these is named, and it is Chromium exactly
-- when no brand is named that is neither Chromium nor made-up by this test.
pub pick_brand-real :
    (cs : List Cand) (c : Cand)
    → pick_brand cs ≡ some c
    → ((contains_text (to_lower c.brand) (bytes "not")
          && (contains_text (to_lower c.brand) (bytes "brand")
              || contains_text (to_lower c.brand) (bytes "_")))
        ≡ false)
      × (is_wanted wanted_brands c ≡ any (is_wanted wanted_brands) cs)
      × (is_chromium c.brand ≡ not (any is_named cs))
unfolding is_grease
pick_brand-real cs c h =
    let (real, last) = pick_brand_chromium cs c h in (real, pick_brand-wanted cs c h, last)
