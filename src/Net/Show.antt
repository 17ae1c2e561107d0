-- ===== src/Net/Show.antt =====
-- `Addr.String` and `Prefix.String` of `net/netip`.
use ip_unt1_com.Prelude.{
  ℕ, zero, suc, ◌+◌, ◌/◌, ◌%◌, ◌^◌, ◌&&◌, List, [], ◌∷◌, ◌++◌, map, Text, bytes, ltb, leb, ◌==◌,
  if◌then◌else◌, ◌≡◌, refl, false, arith, Bool-cases, inl, inr, is_empty, take, drop,
}
use ip_unt1_com.Strings.{itoa, join}
use ip_unt1_com.Net.{Addr, invalid, v4, v6, Prefix}

-- Hexadecimal without leading zeros; the fuel bounds the digits.
unfoldable pub hex_digit : ℕ → ℕ
hex_digit d = if ltb d 10 then 48 + d else 87 + d

unfoldable pub hex_from : ℕ → ℕ → Text → Text
hex_from zero n acc = acc
hex_from (suc f) n acc =
    let rest = hex_from f (n / 16) (hex_digit (n % 16) ∷ acc) in
    if ltb n 16 then hex_digit n ∷ acc else rest

unfoldable pub hex16 : ℕ → Text
hex16 n = hex_from 4 n []

unfoldable pub show_v4 : ℕ → Text
show_v4 n =
    join
      (itoa (n / 2 ^ 24) ∷ itoa (n / 2 ^ 16 % 256) ∷ itoa (n / 2 ^ 8 % 256) ∷ itoa (n % 256) ∷ [])
      (b'.' ∷ [])

unfoldable pub groups : ℕ → ℕ → List ℕ → List ℕ
groups zero n acc = acc
groups (suc k) n acc = groups k (n / 2 ^ 16) (n % 2 ^ 16 ∷ acc)

unfoldable pub zeros_ahead : List ℕ → ℕ
zeros_ahead [] = 0
zeros_ahead (g ∷ gs) = let rest = suc (zeros_ahead gs) in if g == 0 then rest else 0

-- The first of the longest runs of at least two zero groups, as its start and length.
unfoldable pub longest_run : ℕ → List ℕ → ℕ → ℕ → ℕ × ℕ
longest_run i [] start len = (start, len)
longest_run i (g ∷ gs) start len =
    let run = zeros_ahead (g ∷ gs) in
    let better = leb 2 run && ltb len run in
    longest_run (i + 1) gs (if better then i else start) (if better then run else len)

unfoldable pub show_groups : List ℕ → Text
show_groups gs =
    let (start, len) = longest_run 0 gs 8 0 in
    let colon = b':' ∷ [] in
    if len == 0
    then join (map hex16 gs) colon
    else join (map hex16 (take start gs)) colon
      ++ b':' ∷ b':' ∷ join (map hex16 (drop (start + len) gs)) colon

unfoldable pub show_zone : Text → Text
show_zone z = if is_empty z then [] else b'%' ∷ z

unfoldable pub show_addr : Addr → Text
show_addr invalid = bytes "invalid IP"
show_addr (v4 n) = show_v4 n
show_addr (v6 n z) =
    (if n / 2 ^ 32 == 0xffff
      then bytes "::ffff:" ++ show_v4 (n % 2 ^ 32)
      else show_groups (groups 8 n []))
    ++ show_zone z

unfoldable pub show_prefix : Prefix → Text
show_prefix p = show_addr p.addr ++ b'/' ∷ itoa p.bits

nonempty-append : (s t : Text) (c : ℕ) → is_empty (s ++ c ∷ t) ≡ false
nonempty-append [] t c = refl
nonempty-append (x ∷ s) t c = refl

nonempty-append_left : (s t : Text) → is_empty s ≡ false → is_empty (s ++ t) ≡ false
nonempty-append_left [] t h = ground arith
nonempty-append_left (x ∷ s) t h = refl

nonempty-join :
    (p q : Text) (ps : List Text) (c : ℕ) → is_empty (join (p ∷ q ∷ ps) (c ∷ [])) ≡ false
unfolding join
nonempty-join p q ps c = nonempty-append p (join (q ∷ ps) (c ∷ [])) c

nonempty-show_groups : (g h : ℕ) (gs : List ℕ) → is_empty (show_groups (g ∷ h ∷ gs)) ≡ false
unfolding show_groups
nonempty-show_groups g h gs =
    let run = longest_run 0 (g ∷ h ∷ gs) 8 0 in
    elim (Bool-cases (run.1 == 0)) [
      | inl none_left ↦ rw none_left (nonempty-join (hex16 g) (hex16 h) (map hex16 gs) b':')
      | inr some_left ↦ rw some_left (nonempty-append _ _ b':')
    ]

nonempty-show_v4 : (n : ℕ) → is_empty (show_v4 n) ≡ false
unfolding show_v4
nonempty-show_v4 n = nonempty-join _ _ _ b'.'

nonempty-groups : (n : ℕ) → is_empty (show_groups (groups 8 n [])) ≡ false
unfolding groups
nonempty-groups n = nonempty-show_groups _ _ _

-- No address is written as the empty text.
pub nonempty-show_addr : (a : Addr) → is_empty (show_addr a) ≡ false
unfolding show_addr bytes
nonempty-show_addr invalid = refl
nonempty-show_addr (v4 n) = nonempty-show_v4 n
nonempty-show_addr (v6 n z) = elim (Bool-cases (n / 2 ^ 32 == 0xffff)) [
  | inl mapped ↦ rw mapped
  | inr plain ↦
      rw plain
        (nonempty-append_left (show_groups (groups 8 n [])) (show_zone z) (nonempty-groups n))
]
