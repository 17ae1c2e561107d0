-- ===== src/Strings/Unquote.antt =====
-- Text that strconv.Quote wrote, read back.
use ip_unt1_com.Prelude.{
  ℕ, zero, suc, ◌≤◌, sym, ◌+◌, ◌*◌, ◌/◌, ◌%◌, ◌^◌, ◌<◌, ◌≡◌, refl, Bool, false, [], ◌∷◌, ◌++◌,
  Option, none, some, Text, bytes, ◌==◌, if◌then◌else◌, ltb, Bool-cases, inl, inr, arith, ◌∙◌, ap,
  All,
}
use mathlib.Core.List.{append_assoc}
use ip_unt1_com.Net.Show.{hex_digit}
use ip_unt1_com.Asn.Query.{hex_value, hex_value-hex_digit}
use ip_unt1_com.Strings.Runes.{encode_rune}
use ip_unt1_com.Strings.Quote.{escape, hex_pad, rune_text}

-- Where a reader of quoted text stands: on a byte, past a backslash, within the digits of `\x`, or
-- within those of a character, with how many more follow the next one and what they make so far.
pub data Mode : Type 0 where
  plain : Mode
  slash : Mode
  first_digit : Mode
  second_digit : ℕ → Mode
  digits : ℕ → ℕ → Mode

-- The byte that a letter past a backslash stands for.
pub named_byte : ℕ → ℕ
named_byte c =
    if c == b'a'
    then 7
    else if c == b'b'
    then 8
    else if c == b't'
    then 9
    else if c == b'n'
    then 10
    else if c == b'v'
    then 11
    else if c == b'f'
    then 12
    else if c == b'r'
    then 13
    else c

unfoldable pub onto : Text → Option (Text × Text) → Option (Text × Text)
onto bs none = none
onto bs (some (s, t)) = some (bs ++ s, t)

-- Reads quoted text up to the quote that ends it: the text, and what follows.
unfoldable pub read_quoted : Mode → Text → Option (Text × Text)
read_quoted m [] = none
read_quoted plain (c ∷ s) =
    let rest = onto (c ∷ []) (read_quoted plain s) in
    let named = read_quoted slash s in
    if c == 34 then some ([], s) else if c == 92 then named else rest
read_quoted slash (c ∷ s) =
    let coded = read_quoted first_digit s in
    let short = read_quoted (digits 3 0) s in
    let long = read_quoted (digits 7 0) s in
    let rest = onto (named_byte c ∷ []) (read_quoted plain s) in
    if c == b'x' then coded else if c == b'u' then short else if c == b'U' then long else rest
read_quoted first_digit (c ∷ s) = read_quoted (second_digit (hex_value c)) s
read_quoted (second_digit n) (c ∷ s) = onto ((16 * n + hex_value c) ∷ []) (read_quoted plain s)
read_quoted (digits zero n) (c ∷ s) =
    onto (encode_rune (16 * n + hex_value c)) (read_quoted plain s)
read_quoted (digits (suc k) n) (c ∷ s) = read_quoted (digits k (16 * n + hex_value c)) s

pub read_quoted-coded :
    (c : ℕ) (s : Text)
    → c < 256
    → read_quoted plain (bytes "\\x" ++ hex_digit (c / 16) ∷ hex_digit (c % 16) ∷ s)
      ≡ onto (c ∷ []) (read_quoted plain s)
unfolding read_quoted bytes
read_quoted-coded c s h =
    let hi = hex_value-hex_digit (c / 16) (omega arith) in
    let lo = hex_value-hex_digit (c % 16) (omega arith) in
    let same : 16 * hex_value (hex_digit (c / 16)) + hex_value (hex_digit (c % 16)) ≡ c =
      omega (arith, hi, lo) in
    rw same refl

pub read_quoted-escape :
    (c : ℕ) (s : Text) → read_quoted plain (escape c ++ s) ≡ onto (c ∷ []) (read_quoted plain s)
unfolding escape read_quoted named_byte bytes
read_quoted-escape c s = ground (arith, read_quoted-coded c s)

-- The next digit of a number.
read_quoted-digit :
    (k n m : ℕ) (s : Text)
    → m < 16
    → read_quoted (digits (suc k) n) (hex_digit m ∷ s) ≡ read_quoted (digits k (16 * n + m)) s
unfolding read_quoted
read_quoted-digit k n m s h = rw (hex_value-hex_digit m h) refl

read_quoted-last_digit :
    (n m : ℕ) (s : Text)
    → m < 16
    → read_quoted (digits zero n) (hex_digit m ∷ s)
      ≡ onto (encode_rune (16 * n + m)) (read_quoted plain s)
unfolding read_quoted
read_quoted-last_digit n m s h = rw (hex_value-hex_digit m h) refl

read_quoted-u : (s : Text) → read_quoted plain (bytes "\\u" ++ s) ≡ read_quoted (digits 3 0) s
unfolding read_quoted bytes
read_quoted-u s = refl

read_quoted-long_u : (s : Text) → read_quoted plain (bytes "\\U" ++ s) ≡ read_quoted (digits 7 0) s
unfolding read_quoted bytes
read_quoted-long_u s = refl

mod_16 : (m : ℕ) → m % 16 < 16
mod_16 m = omega arith

hex_pad-append : (k r : ℕ) (acc s : Text) → hex_pad k r acc ++ s ≡ hex_pad k r (acc ++ s)
unfolding hex_pad
hex_pad-append zero r acc s = refl
hex_pad-append (suc k) r acc s = hex_pad-append k (r / 16) (hex_digit (r % 16) ∷ acc) s

-- The digits of a number but the last ones.
read_quoted-hex_pad :
    (k j r : ℕ) (s : Text)
    → r < 16 ^ k
    → read_quoted (digits (k + j) 0) (hex_pad k r s) ≡ read_quoted (digits j r) s
unfolding hex_pad
read_quoted-hex_pad zero j r s h =
    let none_left : r ≡ 0 = omega arith in
    let same : zero + j ≡ j = omega arith in rw (none_left, same) refl
read_quoted-hex_pad (suc k) j r s h =
    let same : suc k + j ≡ k + suc j = omega arith in
    let whole : 16 * (r / 16) + r % 16 ≡ r = omega arith in
    ap (λ (m : ℕ). read_quoted (digits m 0) (hex_pad k (r / 16) (hex_digit (r % 16) ∷ s))) same
    ∙ read_quoted-hex_pad k (suc j) (r / 16) (hex_digit (r % 16) ∷ s) (omega arith)
    ∙ read_quoted-digit j (r / 16) (r % 16) s (mod_16 r)
    ∙ ap (λ (m : ℕ). read_quoted (digits j m) s) whole

read_quoted-all_digits :
    (k r : ℕ) (s : Text)
    → r < 16 ^ suc k
    → read_quoted (digits k 0) (hex_pad (suc k) r [] ++ s)
      ≡ onto (encode_rune r) (read_quoted plain s)
unfolding hex_pad
read_quoted-all_digits k r s h =
    let same : k ≡ k + zero = omega arith in
    let whole : 16 * (r / 16) + r % 16 ≡ r = omega arith in
    let number = hex_pad k (r / 16) (hex_digit (r % 16) ∷ s) in
    ap (read_quoted (digits k 0)) (hex_pad-append k (r / 16) (hex_digit (r % 16) ∷ []) s)
    ∙ ap (λ (m : ℕ). read_quoted (digits m 0) number) same
    ∙ read_quoted-hex_pad k zero (r / 16) (hex_digit (r % 16) ∷ s) (omega arith)
    ∙ read_quoted-last_digit (r / 16) (r % 16) s (mod_16 r)
    ∙ ap (λ (m : ℕ). onto (encode_rune m) (read_quoted plain s)) whole

read_quoted-short :
    (r : ℕ) (s : Text)
    → r < 65536
    → read_quoted plain ((bytes "\\u" ++ hex_pad 4 r []) ++ s)
      ≡ onto (encode_rune r) (read_quoted plain s)
unfolding bytes
read_quoted-short r s h =
    read_quoted-u (hex_pad 4 r [] ++ s) ∙ read_quoted-all_digits 3 r s (omega arith)

read_quoted-long :
    (r : ℕ) (s : Text)
    → r < 2097152
    → read_quoted plain ((bytes "\\U" ++ hex_pad 8 r []) ++ s)
      ≡ onto (encode_rune r) (read_quoted plain s)
unfolding bytes
read_quoted-long r s h =
    read_quoted-long_u (hex_pad 8 r [] ++ s) ∙ read_quoted-all_digits 7 r s (omega arith)

onto-nil : (o : Option (Text × Text)) → o ≡ onto [] o
unfolding onto
onto-nil none = refl
onto-nil (some (x, t)) = refl

onto-onto : (xs bs : Text) (o : Option (Text × Text)) → onto xs (onto bs o) ≡ onto (xs ++ bs) o
unfolding onto
onto-onto xs bs none = refl
onto-onto xs bs (some (s, t)) = ap (λ (x : Text). some (x, t)) (sym (append_assoc xs bs s))

pub onto-some : (bs s t : Text) → onto bs (some (s, t)) ≡ some (bs ++ s, t)
unfolding onto
onto-some bs s t = refl

-- Bytes from 128 on stand for themselves.
read_quoted-high :
    (bs s : Text)
    → All (λ c. 128 ≤ c) bs
    → read_quoted plain (bs ++ s) ≡ onto bs (read_quoted plain s)
unfolding read_quoted
read_quoted-high [] s h = onto-nil (read_quoted plain s)
read_quoted-high (c ∷ bs) s (h, hs) =
    let plain_byte : (c == 34) ≡ false = ground arith in
    let no_slash : (c == 92) ≡ false = ground arith in
    rw (plain_byte, no_slash, read_quoted-high bs s hs)
      (onto-onto (c ∷ []) bs (read_quoted plain s))

pub read_quoted-rune_text :
    (is_print : ℕ → Bool) (r : ℕ) (bs s : Text)
    → r < 2097152
    → encode_rune r ≡ bs
    → All (λ c. 128 ≤ c) bs
    → read_quoted plain (rune_text is_print r bs ++ s) ≡ onto bs (read_quoted plain s)
unfolding rune_text
read_quoted-rune_text is_print r bs s h e high = elim (Bool-cases (is_print r)) [
  | inl printed ↦ rw printed (read_quoted-high bs s high)
  | inr coded ↦ elim (Bool-cases (ltb r 65536)) [
    | inl short ↦ rw (coded, short, ← e) (read_quoted-short r s (ground arith))
    | inr long ↦ rw (coded, long, ← e) (read_quoted-long r s h)
  ]
]
