-- ===== src/Asn/Query.antt =====
-- asn.go: the query name of an IPv6 address, read back.
use native.Mathlib.Nat.{pow-suc}
use ip_unt1_com.Prelude.{
  ℕ, zero, suc, ◌+◌, ◌-◌, ◌*◌, ◌/◌, ◌%◌, ◌^◌, ◌<◌, ◌≡◌, [], ◌∷◌, Text, ltb, if◌then◌else◌, arith,
}
use ip_unt1_com.Strings.{join}
use ip_unt1_com.Net.Show.{hex_digit}
use ip_unt1_com.Asn.{nibbles, nibble_reverse_v6}

pub hex_value : ℕ → ℕ
hex_value c = if ltb c 58 then c - 48 else c - 87

-- The number written by digits with dots between them, the lowest digit first.
pub read_nibbles : Text → ℕ
read_nibbles [] = 0
read_nibbles (c ∷ []) = hex_value c
read_nibbles (c ∷ dot ∷ s) = hex_value c + 16 * read_nibbles s

pub hex_value-hex_digit : (d : ℕ) → d < 16 → hex_value (hex_digit d) ≡ d
unfolding hex_value hex_digit
hex_value-hex_digit d h = ground arith

read_nibbles-nibbles :
    (k n : ℕ) → n < 256 ^ suc k → read_nibbles (join (nibbles (suc k) n) (b'.' ∷ [])) ≡ n
unfolding read_nibbles nibbles join
read_nibbles-nibbles zero n h =
    let lo = hex_value-hex_digit (n % 16) (omega arith) in
    let hi = hex_value-hex_digit (n / 16 % 16) (omega arith) in omega (arith, lo, hi)
read_nibbles-nibbles (suc k) n h =
    let lo = hex_value-hex_digit (n % 16) (omega arith) in
    let hi = hex_value-hex_digit (n / 16 % 16) (omega arith) in
    let rest = read_nibbles-nibbles k (n / 256) (omega (arith, pow-suc 256 (suc k))) in
    omega (arith, lo, hi, rest)

-- Reading the digits of the query name of an IPv6 address gives its number, so that different
-- addresses have different query names.
pub read_nibbles-nibble_reverse_v6 : (n : ℕ) → n < 2 ^ 128 → read_nibbles (nibble_reverse_v6 n) ≡ n
unfolding nibble_reverse_v6
read_nibbles-nibble_reverse_v6 n h = read_nibbles-nibbles 15 n h
