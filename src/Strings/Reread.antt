-- ===== src/Strings/Reread.antt =====
-- Whole texts that strconv.Quote wrote, read back.
use ip_unt1_com.Prelude.{
  ℕ, zero, suc, ◌≤◌, ◌<◌, ◌≡◌, refl, Bool, [], ◌∷◌, ◌++◌, some, Text, bytes, ltb, Bool-cases, inl,
  inr, arith, ◌∙◌, ap, All, take, drop,
}
use mathlib.Core.List.{append_assoc}
use ip_unt1_com.Strings.Quote.{
  byte_at, is_two, is_three, is_four, rune_two, rune_three, rune_four, wide, piece, escape_from,
}
use ip_unt1_com.Strings.Unquote.{
  plain, onto, onto-some, read_quoted, read_quoted-coded, read_quoted-escape, read_quoted-rune_text,
}
use ip_unt1_com.Strings.Runes.{encode_rune-two, encode_rune-three, encode_rune-four}

-- A byte that is there.
take-one : (s : Text) → 128 ≤ byte_at 0 s → take 1 s ≡ byte_at 0 s ∷ []
take-one [] h = absurd (omega arith)
take-one (b ∷ s) h = refl

take-two :
    (s : Text) → 128 ≤ byte_at 0 s → 128 ≤ byte_at 1 s → take 2 s ≡ byte_at 0 s ∷ byte_at 1 s ∷ []
take-two [] h i = absurd (omega arith)
take-two (b ∷ s) h i = ap (λ (x : Text). b ∷ x) (take-one s i)

take-three :
    (s : Text)
    → 128 ≤ byte_at 0 s
    → 128 ≤ byte_at 1 s
    → 128 ≤ byte_at 2 s
    → take 3 s ≡ byte_at 0 s ∷ byte_at 1 s ∷ byte_at 2 s ∷ []
take-three [] h i j = absurd (omega arith)
take-three (b ∷ s) h i j = ap (λ (x : Text). b ∷ x) (take-two s i j)

-- What is written for a byte and those that it takes along is read back as these.
abbrev IsRead : (ℕ → Bool) → ℕ → Text → Text → Text × ℕ → Type 0
IsRead is_print c s rest p =
    read_quoted plain (p.0 ++ rest) ≡ onto (c ∷ take p.1 s) (read_quoted plain rest)

module _ (is_print : ℕ → Bool) (c : ℕ) (s rest : Text) (byte : c < 256) where
  wide-IsRead : IsRead is_print c s rest (wide is_print c (byte_at 0 s) (byte_at 1 s) (byte_at 2 s))
  unfolding wide bytes
  wide-IsRead =
      let b = byte_at 0 s in
      let d = byte_at 1 s in
      let e = byte_at 2 s in
      elim (Bool-cases (is_two c (byte_at 0 s))) [
        | inl two ↦
            rw (two, take-one s (ground arith))
              (read_quoted-rune_text is_print (rune_two c b) (c ∷ b ∷ []) rest (ground arith)
                (encode_rune-two c b two) (ground arith))
        | inr not_two ↦ elim (Bool-cases (is_three c (byte_at 0 s) (byte_at 1 s))) [
          | inl three ↦
              rw (not_two, three, take-two s (ground arith) (ground arith))
                (read_quoted-rune_text is_print (rune_three c b d) (c ∷ b ∷ d ∷ []) rest
                  (ground arith) (encode_rune-three c b d three) (ground arith))
          | inr not_three ↦
              elim (Bool-cases (is_four c (byte_at 0 s) (byte_at 1 s) (byte_at 2 s))) [
                | inl four ↦
                    rw
                      (
                        not_two,
                        not_three,
                        four,
                        take-three s (ground arith) (ground arith) (ground arith),
                      )
                      (read_quoted-rune_text is_print (rune_four c b d e) (c ∷ b ∷ d ∷ e ∷ []) rest
                        (ground arith) (encode_rune-four c b d e four) (ground arith))
                | inr not_four ↦ rw (not_two, not_three, not_four) (read_quoted-coded c rest byte)
              ]
        ]
      ]

  piece-IsRead : IsRead is_print c s rest (piece is_print c s)
  unfolding piece
  piece-IsRead = elim (Bool-cases (ltb c 128)) [
    | inl low ↦ rw low (read_quoted-escape c rest)
    | inr high ↦ rw high wide-IsRead
  ]

take-drop : (n : ℕ) (s : Text) → take n s ++ drop n s ≡ s
take-drop zero s = refl
take-drop (suc n) [] = refl
take-drop (suc n) (c ∷ s) = ap (λ (x : Text). c ∷ x) (take-drop n s)

read_quoted-escape_from :
    (is_print : ℕ → Bool) (n : ℕ) (s t : Text)
    → All (λ c. c < 256) s
    → read_quoted plain (escape_from is_print n s ++ 34 ∷ t) ≡ some (drop n s, t)
unfolding escape_from
read_quoted-escape_from is_print zero [] t h = unfold read_quoted in refl
read_quoted-escape_from is_print (suc n) [] t h = unfold read_quoted in refl
read_quoted-escape_from is_print (suc n) (c ∷ s) t h = read_quoted-escape_from is_print n s t h.1
read_quoted-escape_from is_print zero (c ∷ s) t (h, hs) =
    let w = (piece is_print c s).0 in
    let n = (piece is_print c s).1 in
    let later = escape_from is_print n s in
    ap (read_quoted plain) (append_assoc w later (34 ∷ t))
    ∙ piece-IsRead is_print c s (later ++ 34 ∷ t) h
    ∙ ap (onto (c ∷ take n s)) (read_quoted-escape_from is_print n s t hs)
    ∙ onto-some (c ∷ take n s) (drop n s) t
    ∙ ap (λ (x : Text). some (c ∷ x, t)) (take-drop n s)

-- Quoted text is read back up to its end and no further.
pub read_quoted-quote :
    (is_print : ℕ → Bool) (s t : Text)
    → All (λ c. c < 256) s
    → read_quoted plain (escape_from is_print 0 s ++ 34 ∷ t) ≡ some (s, t)
read_quoted-quote is_print s t h = read_quoted-escape_from is_print 0 s t h
