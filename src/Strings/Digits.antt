-- ===== src/Strings/Digits.antt =====
-- Decimal digits, printed and read back.
use ip_unt1_com.Prelude.{
  ℕ, zero, suc, ◌+◌, ◌-◌, ◌*◌, ◌/◌, ◌%◌, ◌<◌, ◌≡◌, refl, Bool, true, false, ◌&&◌, [], ◌∷◌, some,
  Text, ltb, leb, is_empty, arith, Bool-cases, inl, inr, any, ◌∙◌, ap,
}
use ip_unt1_com.Strings.{digits_from, itoa, digits_value}

digits_value-digit :
    (a d : ℕ) (acc : Text)
    → d < 10
    → digits_value ((48 + d) ∷ acc) a ≡ digits_value acc (a * 10 + d)
unfolding digits_value
digits_value-digit a d acc h =
    let digit : (leb 48 (48 + d) && leb (48 + d) 57) ≡ true = ground arith in
    let same : a * 10 + (48 + d - 48) ≡ a * 10 + d = omega arith in rw (digit, same) refl

digits_value-digits_from :
    (f n : ℕ) (acc : Text) → n < f → digits_value (digits_from f n acc) 0 ≡ digits_value acc n
unfolding digits_from
digits_value-digits_from zero n acc h = absurd (omega arith)
digits_value-digits_from (suc f) n acc h = elim (Bool-cases (ltb n 10)) [
  | inl small ↦
      let same : 0 * 10 + n ≡ n = omega arith in
      rw small (digits_value-digit 0 n acc (ground arith) ∙ ap (digits_value acc) same)
  | inr large ↦
      let last : n % 10 < 10 = omega arith in
      let same : n / 10 * 10 + n % 10 ≡ n = omega arith in
      rw large (
        digits_value-digits_from f (n / 10) ((48 + n % 10) ∷ acc) (ground arith)
        ∙ digits_value-digit (n / 10) (n % 10) acc last
        ∙ ap (digits_value acc) same)
]

-- The digits of a number are read as the number.
pub digits_value-itoa : (n : ℕ) → digits_value (itoa n) 0 ≡ some n
unfolding itoa digits_value
digits_value-itoa n = digits_value-digits_from (suc n) n [] (omega arith)

nonempty-digits_from : (f n c : ℕ) (acc : Text) → is_empty (digits_from f n (c ∷ acc)) ≡ false
unfolding digits_from
nonempty-digits_from zero n c acc = refl
nonempty-digits_from (suc f) n c acc =
    ground (arith, nonempty-digits_from f (n / 10) (48 + n % 10) (c ∷ acc))

pub nonempty-itoa : (n : ℕ) → is_empty (itoa n) ≡ false
unfolding itoa digits_from
nonempty-itoa n = ground (arith, nonempty-digits_from n (n / 10) (48 + n % 10) [])

-- Text that reads as a number holds digits only.
pub any-digits :
    (p : ℕ → Bool)
    → ((c : ℕ) → (leb 48 c && leb c 57) ≡ true → p c ≡ false)
    → (s : Text) (acc n : ℕ) → digits_value s acc ≡ some n
    → any p s ≡ false
unfolding digits_value
any-digits p no_digit [] acc n h = refl
any-digits p no_digit (d ∷ s) acc n h =
    ground (arith, any-digits p no_digit s (acc * 10 + (d - 48)) n, no_digit d)
