-- ===== src/Strings/Runes.antt =====
-- Characters in UTF-8, encoded after they were decoded.
use ip_unt1_com.Prelude.{ℕ, ◌+◌, ◌/◌, ◌%◌, ◌≡◌, true, [], ◌∷◌, Text, ltb, if◌then◌else◌, arith}
use ip_unt1_com.Strings.Quote.{is_two, is_three, is_four, rune_two, rune_three, rune_four}

-- The bytes of a character in UTF-8.
pub encode_rune : ℕ → Text
encode_rune r =
    if ltb r 128
    then r ∷ []
    else if ltb r 2048
    then (192 + r / 64) ∷ (128 + r % 64) ∷ []
    else if ltb r 65536
    then (224 + r / 4096) ∷ (128 + r / 64 % 64) ∷ (128 + r % 64) ∷ []
    else (240 + r / 262144) ∷ (128 + r / 4096 % 64) ∷ (128 + r / 64 % 64) ∷ (128 + r % 64) ∷ []

pub encode_rune-two : (c b : ℕ) → is_two c b ≡ true → encode_rune (rune_two c b) ≡ c ∷ b ∷ []
unfolding encode_rune
encode_rune-two c b h = ground arith

pub encode_rune-three :
    (c b d : ℕ) → is_three c b d ≡ true → encode_rune (rune_three c b d) ≡ c ∷ b ∷ d ∷ []
unfolding encode_rune
encode_rune-three c b d h = ground arith

pub encode_rune-four :
    (c b d e : ℕ) → is_four c b d e ≡ true → encode_rune (rune_four c b d e) ≡ c ∷ b ∷ d ∷ e ∷ []
unfolding encode_rune
encode_rune-four c b d e h = ground arith
