-- ===== src/Strings/Trim.antt =====
-- Trimming white space.
use mathlib.Core.List.{reverse-append, reverse-reverse}
use ip_unt1_com.Prelude.{
  ℕ, ◌≡◌, refl, Bool, true, false, [], ◌∷◌, ◌++◌, Text, if◌then◌else◌, is_empty, reverse, any, ◌||◌,
  arith, ◌∙◌, ap, sym, Bool-cases, inl, inr,
}
use ip_unt1_com.Strings.{trim_left, trim, trim_space, is_space}

trim_left-snoc :
    (p : ℕ → Bool) (s : Text) (c : ℕ)
    → p c ≡ true
    → trim_left p (s ++ c ∷ []) ≡ (if is_empty (trim_left p s) then [] else trim_left p s ++ c ∷ [])
unfolding trim_left
trim_left-snoc p [] c h = ground arith
trim_left-snoc p (x ∷ s) c h = ground (arith, trim_left-snoc p s c h)

empty-nil : (t : Text) → is_empty t ≡ true → t ≡ []
empty-nil [] h = refl
empty-nil (x ∷ t) h = absurd (ground arith)

-- What is left when the end is trimmed as well.
abbrev without_end : (ℕ → Bool) → Text → Text
without_end p t = reverse (trim_left p (reverse t))

without_end-snoc :
    (p : ℕ → Bool) (t : Text) (c : ℕ) → p c ≡ true → without_end p (t ++ c ∷ []) ≡ without_end p t
unfolding trim_left
without_end-snoc p t c h =
    ap (λ u. reverse (trim_left p u)) (reverse-append t (c ∷ []))
    ∙ ap (λ b. reverse (if b then trim_left p (reverse t) else c ∷ reverse t)) h

trim_left-cons :
    (p : ℕ → Bool) (s : Text) (c : ℕ) → p c ≡ true → trim_left p (c ∷ s) ≡ trim_left p s
unfolding trim_left
trim_left-cons p s c h = rw h refl

-- A byte that is trimmed makes no difference at either end.
pub trim-around :
    (p : ℕ → Bool) (s : Text) (c : ℕ) → p c ≡ true → trim p (c ∷ (s ++ c ∷ [])) ≡ trim p s
unfolding trim
trim-around p s c h =
    let t = trim_left p s in
    let left = trim_left-cons p (s ++ c ∷ []) c h ∙ trim_left-snoc p s c h in
    elim (Bool-cases (is_empty t)) [
      | inl blank ↦
          ap (without_end p)
            (left ∙ ap (λ b. if b then [] else t ++ c ∷ []) blank ∙ sym (empty-nil t blank))
      | inr text ↦
          ap (without_end p) (left ∙ ap (λ b. if b then [] else t ++ c ∷ []) text)
          ∙ without_end-snoc p t c h
    ]

pub trim_space-around : (s : Text) → trim_space (32 ∷ (s ++ 32 ∷ [])) ≡ trim_space s
unfolding trim_space
trim_space-around s = trim-around is_space s 32 (unfold is_space in refl)

pub trim_space-front : (s : Text) → trim_space (32 ∷ s) ≡ trim_space s
unfolding trim_space trim
trim_space-front s =
    ap (without_end is_space) (trim_left-cons is_space s 32 (unfold is_space in refl))

pub trim_space-back : (s : Text) → trim_space (s ++ 32 ∷ []) ≡ trim_space s
trim_space-back s = sym (trim_space-front (s ++ 32 ∷ [])) ∙ trim_space-around s

trim_left-none : (p : ℕ → Bool) (s : Text) → any p s ≡ false → trim_left p s ≡ s
unfolding trim_left
trim_left-none p [] h = refl
trim_left-none p (x ∷ s) h = ground arith

any-append : (p : ℕ → Bool) (s t : Text) → any p (s ++ t) ≡ (any p s || any p t)
any-append p [] t = refl
any-append p (x ∷ s) t = ground (arith, any-append p s t)

any-reverse : (p : ℕ → Bool) (s : Text) → any p (reverse s) ≡ any p s
any-reverse p [] = refl
any-reverse p (x ∷ s) =
    let back = ap (any p) (reverse-append (x ∷ []) s) in
    ground (arith, back, any-append p (reverse s) (x ∷ []), any-reverse p s)

-- Text without white space is left alone.
pub trim_space-none : (s : Text) → any is_space s ≡ false → trim_space s ≡ s
unfolding trim_space trim
trim_space-none s h =
    ap (without_end is_space) (trim_left-none is_space s h)
    ∙ ap reverse (trim_left-none is_space (reverse s) (any-reverse is_space s ∙ h))
    ∙ reverse-reverse s
