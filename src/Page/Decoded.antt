-- ===== src/Page/Decoded.antt =====
-- main.go: a client that decodes what `writeJSON` encodes. A field that is not there has the zero
-- value of its type.
use ip_unt1_com.Prelude.{
  ◌≡◌, refl, Bool, true, false, ◌&&◌, List, [], ◌∷◌, Option, none, some, Text, text_eq, text_eq_iff,
  text_instance, if◌then◌else◌, arith, contains, Bool-cases, inl, inr, subst, sym,
}
use ip_unt1_com.Prelude.Distinct.{IsDistinct}
use ip_unt1_com.Prelude.Int.{ℤ, pos, negsuc}
use ip_unt1_com.Page.Json.{
  Json, null, text, number, truth, texts, object, Members, end, member, Row, is_zero, members,
}

unfoldable pub find : Text → Members → Json
find k end = null
find k (member j v ms) = if text_eq j k then v else find k ms

-- The value of a field, also where it is left out.
unfoldable pub row_at : Text → List Row → Json
row_at k [] = null
row_at k ((j, (omit, v)) ∷ rows) = if text_eq j k then v else row_at k rows

find_missing : (k : Text) (rows : List Row) → contains k rows ≡ false → find k (members rows) ≡ null
unfolding find members contains
find_missing k [] h = refl
find_missing k ((j, (omit, v)) ∷ rows) h = ground (arith, find_missing k rows)

-- A client that cannot tell a zero value from none reads every field.
module _ {ℓ} {A : Type ℓ} (f : Json → A)
    (blank : (v : Json) → is_zero v ≡ true → f v ≡ f null) where
  pub find-members :
      (k : Text) (rows : List Row) → IsDistinct rows → f (find k (members rows)) ≡ f (row_at k rows)
  unfolding find members row_at
  find-members k [] d = refl
  find-members k ((j, (omit, v)) ∷ rows) (new, d) = elim (Bool-cases (text_eq j k)) [
    | inr other ↦
        rw other (ground (arith, find-members k rows d, Bool-cases (omit && is_zero v), other))
    | inl own ↦
        let absent : contains k rows ≡ false =
          subst (λ i. contains i rows ≡ false) (ground (arith, text_eq_iff j k)) new in
        elim (Bool-cases (omit && is_zero v)) [
          | inl left_out ↦
              let zero : is_zero v ≡ true = ground arith in
              rw (own, left_out, find_missing k rows absent) (sym (blank v zero))
          | inr there ↦ rw (own, there) (rw own refl)
        ]
  ]

-- What a client makes of a value, the zero value of its type where there is none.
abbrev pub text_of : Json → Text
text_of (text s) = s
text_of _ = []

abbrev pub number_of : Json → ℤ
number_of (number n) = n
number_of _ = pos 0

abbrev pub truth_of : Json → Bool
truth_of (truth b) = b
truth_of _ = false

abbrev pub texts_of : Json → List Text
texts_of (texts ss) = ss
texts_of _ = []

abbrev pub members_of : Json → Option Members
members_of (object ms) = some ms
members_of _ = none

pub text_of_zero : (v : Json) → is_zero v ≡ true → text_of v ≡ text_of null
unfolding is_zero
text_of_zero (text []) z = refl
text_of_zero (text (c ∷ s)) z = absurd (ground (arith, z))
text_of_zero _ z = refl

pub number_of_zero : (v : Json) → is_zero v ≡ true → number_of v ≡ number_of null
unfolding is_zero
number_of_zero (number (pos n)) z = ground (arith, z)
number_of_zero (number (negsuc n)) z = absurd (ground (arith, z))
number_of_zero _ z = refl

pub truth_of_zero : (v : Json) → is_zero v ≡ true → truth_of v ≡ truth_of null
unfolding is_zero
truth_of_zero (truth true) z = absurd (ground (arith, z))
truth_of_zero _ z = refl

pub texts_of_zero : (v : Json) → is_zero v ≡ true → texts_of v ≡ texts_of null
unfolding is_zero
texts_of_zero (texts []) z = refl
texts_of_zero (texts (c ∷ s)) z = absurd (ground (arith, z))
texts_of_zero _ z = refl

pub members_of_zero : (v : Json) → is_zero v ≡ true → members_of v ≡ members_of null
unfolding is_zero
members_of_zero (object ms) z = absurd (ground (arith, z))
members_of_zero _ z = refl
