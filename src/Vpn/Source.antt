-- ===== src/Vpn/Source.antt =====
-- vpn.go, `appendSource`: the words between plus signs.
use ip_unt1_com.Prelude.{
  ℕ, ◌≡◌, refl, inl, inr, Bool, true, false, ◌||◌, List, [], ◌∷◌, ◌++◌, Text, text_eq, text_eq_refl,
  if◌then◌else◌, is_empty, any, Bool-cases, arith, All, subst, ◌∙◌, ◌==◌, text_eq_iff,
}
use ip_unt1_com.Strings.{onto_head, split}
use ip_unt1_com.Vpn.{append_source}

-- A word without the separator.
abbrev pub IsWord : Text → Type 0
IsWord w = All (λ c. (c == b'+') ≡ false) w × (is_empty w ≡ false)

abbrev pub has_word : Text → Text → Bool
has_word w s = any (λ p. text_eq p w) (split s b'+')

split-nonempty : (s : Text) (sep : ℕ) → is_empty (split s sep) ≡ false
unfolding split
split-nonempty [] sep = refl
split-nonempty (x ∷ s) sep = ground arith

split-word : (w : Text) → All (λ c. (c == b'+') ≡ false) w → split w b'+' ≡ w ∷ []
unfolding split
split-word [] h = refl
split-word (c ∷ w) (h, hs) = rw (split-word w hs, h)

onto_head-append :
    (c : ℕ) (l r : List Text) → is_empty l ≡ false → onto_head c (l ++ r) ≡ onto_head c l ++ r
onto_head-append c [] r h = ground arith
onto_head-append c (p ∷ ps) r h = refl

-- The words of a text, a plus sign and a second text are the words of both.
split-append : (s t : Text) → split (s ++ b'+' ∷ t) b'+' ≡ split s b'+' ++ split t b'+'
unfolding split
split-append [] t = refl
split-append (c ∷ s) t = elim (Bool-cases (c == b'+')) [
  | inl here ↦ rw (split-append s t, here)
  | inr other ↦
      rw (split-append s t, other)
        (onto_head-append c (split s b'+') (split t b'+') (split-nonempty s b'+'))
]

any-append : (p : Text → Bool) (xs ys : List Text) → any p (xs ++ ys) ≡ (any p xs || any p ys)
any-append p [] ys = refl
any-append p (x ∷ xs) ys = ground (arith, any-append p xs ys)

has_word-append :
    (v w s : Text) → IsWord w → has_word v (s ++ b'+' ∷ w) ≡ (has_word v s || text_eq w v)
has_word-append v w s (h, _) =
    rw (split-append s w, split-word w h, any-append (λ p. text_eq p v) (split s b'+') (w ∷ []))
      (cases (has_word v s) (text_eq w v))
  where
    cases : (a b : Bool) → (a || (b || false)) ≡ (a || b)
    cases true b = refl
    cases false true = refl
    cases false false = refl

text_eq-nil : (v : Text) → is_empty v ≡ false → text_eq [] v ≡ false
unfolding text_eq
text_eq-nil [] h = ground arith
text_eq-nil (c ∷ v) h = refl

append_source-nonempty :
    (s w : Text)
    → is_empty s ≡ false
    → append_source s w ≡ (if has_word w s then s else s ++ b'+' ∷ w)
unfolding append_source
append_source-nonempty s w h = rw h

has_word-append_source :
    (s w v : Text)
    → IsWord w
    → is_empty v ≡ false
    → has_word v (append_source s w) ≡ (has_word v s || text_eq w v)
has_word-append_source [] w v (h, n) k =
    unfold append_source split in rw (split-word w h, text_eq-nil v k) (or_false (text_eq w v))
  where
    or_false : (a : Bool) → (a || false) ≡ a
    or_false true = refl
    or_false false = refl
has_word-append_source (c ∷ s) w v h k = elim (Bool-cases (has_word w (c ∷ s))) [
  | inr missing ↦
      rw (append_source-nonempty (c ∷ s) w refl) (rw missing (has_word-append v w (c ∷ s) h))
  | inl old ↦
      rw (append_source-nonempty (c ∷ s) w refl) (rw old (already (has_word v (c ∷ s)) (same old)))
]
  where
    same : has_word w (c ∷ s) ≡ true → text_eq w v ≡ true → has_word v (c ∷ s) ≡ true
    same old e = subst (λ x. has_word x (c ∷ s) ≡ true) ((text_eq_iff w v).0 e) old

    already : (a : Bool) → (text_eq w v ≡ true → a ≡ true) → a ≡ (a || text_eq w v)
    already true f = refl
    already false f = ground (arith, f)

append_source-is_nonempty : (s w : Text) → is_empty w ≡ false → is_empty (append_source s w) ≡ false
append_source-is_nonempty [] w h = unfold append_source in h
append_source-is_nonempty (c ∷ s) w h =
    rw (append_source-nonempty (c ∷ s) w refl) (cases (has_word w (c ∷ s)))
  where
    cases : (b : Bool) → is_empty (if b then c ∷ s else (c ∷ s) ++ b'+' ∷ w) ≡ false
    cases true = refl
    cases false = refl

-- Adding a word adds that word and no other, and adding it again changes nothing.
pub append_source-words :
    (s w v : Text)
    → IsWord w
    → is_empty v ≡ false
    → (has_word v (append_source s w) ≡ (has_word v s || text_eq w v))
      × (append_source (append_source s w) w ≡ append_source s w)
append_source-words s w v h k =
    let there : has_word w (append_source s w) ≡ true =
      has_word-append_source s w w h h.1 ∙ rw (text_eq_refl w) (or_true (has_word w s)) in
    (
      has_word-append_source s w v h k,
      append_source-nonempty (append_source s w) w (append_source-is_nonempty s w h.1) ∙ rw there,
    )
  where
    or_true : (a : Bool) → (a || true) ≡ true
    or_true true = refl
    or_true false = refl
