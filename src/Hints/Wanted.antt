-- ===== src/Hints/Wanted.antt =====
-- Which of the brands that are looked for first is taken.
use ip_unt1_com.Prelude.{
  ◌≡◌, refl, Bool, true, false, ◌||◌, List, [], ◌∷◌, some, Text, bytes, Bool-cases, Option-cases,
  inl, inr, arith, ◌∙◌, ap, sym, any, is_some,
}
use ip_unt1_com.Strings.{equal_fold}
use ip_unt1_com.Hints.{Cand, pick_first, pick_wanted, wanted_brands, pick_other, pick_brand}

pub pick_first-fold :
    (cs : List Cand) (w : Text) (c : Cand) → pick_first cs w ≡ some c → equal_fold c.brand w ≡ true
unfolding pick_first
pick_first-fold [] w c h = absurd (ground arith)
pick_first-fold (d ∷ cs) w c h = elim (Bool-cases (equal_fold d.brand w)) [
  | inl hit ↦ ground arith
  | inr miss ↦ pick_first-fold cs w c (ground arith)
]

-- One of the brands that are looked for first, whatever their case.
abbrev pub is_wanted : List Text → Cand → Bool
is_wanted ws c = any (λ w. equal_fold c.brand w) ws

any-or : (p q : Cand → Bool) (cs : List Cand) → any (λ c. p c || q c) cs ≡ (any p cs || any q cs)
any-or p q [] = refl
any-or p q (c ∷ cs) = ground (arith, any-or p q cs)

any-none : (cs : List Cand) → any (is_wanted []) cs ≡ false
any-none [] = refl
any-none (c ∷ cs) = any-none cs

is_some-pick_first :
    (cs : List Cand) (w : Text) → is_some (pick_first cs w) ≡ any (λ c. equal_fold c.brand w) cs
unfolding pick_first
is_some-pick_first [] w = refl
is_some-pick_first (c ∷ cs) w = ground (arith, is_some-pick_first cs w)

is_some-pick_wanted :
    (cs : List Cand) (ws : List Text) → is_some (pick_wanted cs ws) ≡ any (is_wanted ws) cs
unfolding pick_wanted
is_some-pick_wanted cs [] = sym (any-none cs)
is_some-pick_wanted cs (w ∷ ws) =
    let split = any-or (λ c. equal_fold c.brand w) (is_wanted ws) cs in
    let here = is_some-pick_first cs w in
    let later = is_some-pick_wanted cs ws in
    elim (Option-cases (pick_first cs w)) [
      | inl none_here ↦ ground (arith, split, here, later, none_here)
      | inr (d, found) ↦ ground (arith, split, here, found)
    ]

pick_wanted-wanted :
    (cs : List Cand) (ws : List Text) (c : Cand)
    → pick_wanted cs ws ≡ some c
    → is_wanted ws c ≡ true
unfolding pick_wanted
pick_wanted-wanted cs [] c h = absurd (ground arith)
pick_wanted-wanted cs (w ∷ ws) c h = elim (Option-cases (pick_first cs w)) [
  | inl none_here ↦ ground (arith, pick_wanted-wanted cs ws c (ground arith))
  | inr (d, here) ↦
      let e : d ≡ c = ground arith in
      ground (arith, pick_first-fold cs w d here, ap (λ (x : Cand). equal_fold x.brand w) e)
]

-- What no candidate is, the taken one is not.
pick_other-any :
    (p : Cand → Bool) (cs : List Cand) (c : Cand)
    → any p cs ≡ false
    → pick_other cs ≡ some c
    → p c ≡ false
unfolding pick_other
pick_other-any p [] c a h = absurd (ground arith)
pick_other-any p (d ∷ cs) c a h = ground (arith, pick_other-any p cs c, a, h)

pick_first-any :
    (p : Cand → Bool) (cs : List Cand) (w : Text) (c : Cand)
    → any p cs ≡ false
    → pick_first cs w ≡ some c
    → p c ≡ false
unfolding pick_first
pick_first-any p [] w c a h = absurd (ground arith)
pick_first-any p (d ∷ cs) w c a h = elim (Bool-cases (equal_fold d.brand w)) [
  | inl hit ↦ let e : d ≡ c = ground arith in ground (arith, ap p e, a)
  | inr miss ↦ pick_first-any p cs w c (ground arith) (ground arith)
]

pub pick_brand-wanted :
    (cs : List Cand) (c : Cand)
    → pick_brand cs ≡ some c
    → is_wanted wanted_brands c ≡ any (is_wanted wanted_brands) cs
unfolding pick_brand
pick_brand-wanted cs c h =
    let some_wanted = is_some-pick_wanted cs wanted_brands in
    elim (Option-cases (pick_wanted cs wanted_brands)) [
      | inr (d, wanted) ↦
          let e : d ≡ c = ground arith in
          let named = pick_wanted-wanted cs wanted_brands d wanted in
          sym (ap (is_wanted wanted_brands) e) ∙ named ∙ sym (ap is_some wanted) ∙ some_wanted
      | inl no_wanted ↦
          let off : any (is_wanted wanted_brands) cs ≡ false =
            sym some_wanted ∙ ap is_some no_wanted in
          elim (Option-cases (pick_other cs)) [
            | inr (d, other) ↦
                let e : d ≡ c = ground arith in
                sym (ap (is_wanted wanted_brands) e)
                ∙ pick_other-any (is_wanted wanted_brands) cs d off other
                ∙ sym off
            | inl no_other ↦
                pick_first-any (is_wanted wanted_brands) cs (bytes "Chromium") c off (ground arith)
                ∙ sym off
          ]
    ]
