-- ===== src/Strings/Quote.antt =====
-- strconv.Quote, as main.go uses it. Which characters from 128 on are printable is a table of
-- package strconv, and an argument here.
use ip_unt1_com.Prelude.{
  ℕ, zero, suc, ◌+◌, ◌*◌, ◌/◌, ◌%◌, Bool, ◌&&◌, ◌||◌, [], ◌∷◌, ◌++◌, Text, bytes, if◌then◌else◌,
  ltb, leb, ◌==◌,
}
use ip_unt1_com.Net.Show.{hex_digit}

-- The escape of one byte below 128 inside quotes.
unfoldable pub escape : ℕ → Text
escape c =
    if c == 34
    then bytes "\\\""
    else if c == 92
    then bytes "\\\\"
    else if c == 7
    then bytes "\\a"
    else if c == 8
    then bytes "\\b"
    else if c == 9
    then bytes "\\t"
    else if c == 10
    then bytes "\\n"
    else if c == 11
    then bytes "\\v"
    else if c == 12
    then bytes "\\f"
    else if c == 13
    then bytes "\\r"
    else if ltb c 32 || c == 127
    then bytes "\\x" ++ (hex_digit (c / 16) ∷ hex_digit (c % 16) ∷ [])
    else c ∷ []

abbrev pub between : ℕ → ℕ → ℕ → Bool
between lo hi c = leb lo c && leb c hi

-- A byte of a text, 0 past its end.
abbrev pub byte_at : ℕ → Text → ℕ
byte_at n [] = 0
byte_at zero (c ∷ s) = c
byte_at (suc n) (c ∷ s) = byte_at n s

-- The tests of utf8.DecodeRune on the bytes of a character of two, three and four bytes.
abbrev pub is_two : ℕ → ℕ → Bool
is_two c b = between 194 223 c && between 128 191 b

abbrev pub is_three : ℕ → ℕ → ℕ → Bool
is_three c b d =
    between 224 239 c
    && (between (if c == 224 then 160 else 128) (if c == 237 then 159 else 191) b
        && between 128 191 d)

abbrev pub is_four : ℕ → ℕ → ℕ → ℕ → Bool
is_four c b d e =
    between 240 244 c
    && (between (if c == 240 then 144 else 128) (if c == 244 then 143 else 191) b
        && (between 128 191 d && between 128 191 e))

-- The characters that they encode.
abbrev pub rune_two : ℕ → ℕ → ℕ
rune_two c b = c % 32 * 64 + b % 64

abbrev pub rune_three : ℕ → ℕ → ℕ → ℕ
rune_three c b d = (c % 16 * 64 + b % 64) * 64 + d % 64

abbrev pub rune_four : ℕ → ℕ → ℕ → ℕ → ℕ
rune_four c b d e = ((c % 8 * 64 + b % 64) * 64 + d % 64) * 64 + e % 64

-- A number in as many hexadecimal digits.
unfoldable pub hex_pad : ℕ → ℕ → Text → Text
hex_pad zero n acc = acc
hex_pad (suc k) n acc = hex_pad k (n / 16) (hex_digit (n % 16) ∷ acc)

-- A character from 128 on, as it is if it is printable.
unfoldable pub rune_text : (ℕ → Bool) → ℕ → Text → Text
unfolding hex_pad
rune_text is_print r encoded =
    if is_print r
    then encoded
    else if ltb r 65536
    then bytes "\\u" ++ hex_pad 4 r []
    else bytes "\\U" ++ hex_pad 8 r []

-- What is written for a byte from 128 on and those behind it, and how many of these it took. A byte
-- that begins no character is written by its number.
unfoldable pub wide : (ℕ → Bool) → ℕ → ℕ → ℕ → ℕ → Text × ℕ
wide is_print c b d e =
    if is_two c b
    then (rune_text is_print (rune_two c b) (c ∷ b ∷ []), 1)
    else if is_three c b d
    then (rune_text is_print (rune_three c b d) (c ∷ b ∷ d ∷ []), 2)
    else if is_four c b d e
    then (rune_text is_print (rune_four c b d e) (c ∷ b ∷ d ∷ e ∷ []), 3)
    else (bytes "\\x" ++ (hex_digit (c / 16) ∷ hex_digit (c % 16) ∷ []), 0)

unfoldable pub piece : (ℕ → Bool) → ℕ → Text → Text × ℕ
piece is_print c s =
    if ltb c 128 then (escape c, 0) else wide is_print c (byte_at 0 s) (byte_at 1 s) (byte_at 2 s)

-- The text inside the quotes; the number is of the bytes that are written already.
unfoldable pub escape_from : (ℕ → Bool) → ℕ → Text → Text
escape_from is_print n [] = []
escape_from is_print zero (c ∷ s) =
    (piece is_print c s).0 ++ escape_from is_print (piece is_print c s).1 s
escape_from is_print (suc n) (c ∷ s) = escape_from is_print n s

-- `strconv.Quote`.
unfoldable pub quote : (ℕ → Bool) → Text → Text
quote is_print s = 34 ∷ (escape_from is_print 0 s ++ 34 ∷ [])
