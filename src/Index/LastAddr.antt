-- ===== src/Index/LastAddr.antt =====
-- cidrindex.go, `lastAddr`: the byte loop of the IPv6 case as arithmetic, and the addresses between the
-- masked address of a prefix and its last one.
use native.Mathlib.Nat.{
  div-div-eq-div-mul, le-div_iff_mul-le, div-lt_iff_lt-mul, one-le-pow, pow-suc,
}
use native.Mathlib.Numerals.{towards_suc}
use ip_unt1_com.Prelude.{
  ℕ, zero, suc, ◌+◌, ◌-◌, ◌*◌, ◌/◌, ◌^◌, ◌≤◌, ◌<◌, ◌≡◌, refl, sym, false, ◌&&◌, List, [], ◌∷◌, leb,
  ◌==◌, length, arith, All, ◌∙◌, ap, min,
}
use ip_unt1_com.Index.{or_low, to_bytes, of_bytes, fill_host}

pub pow-pos : (k : ℕ) → 0 < 2 ^ k
pow-pos k = one-le-pow k 2 (omega arith)

pow-add_eight : (k : ℕ) → 2 ^ (k + 8) ≡ 256 * 2 ^ k
pow-add_eight k = simp towards_suc (omega arith)

fill_host-zero : (bs : List ℕ) → fill_host bs 0 ≡ bs
unfolding fill_host
fill_host-zero [] = refl
fill_host-zero (b ∷ bs) = refl

-- A whole byte of ones, and the rest.
or_low-byte :
    (b x p q : ℕ)
    → b < 256
    → 0 < p
    → q ≡ 256 * p
    → 255 + 256 * (x / p * p + (p - 1)) ≡ (b + 256 * x) / q * q + (q - 1)
or_low-byte b x p q lt pos e =
    let d : (b + 256 * x) / 256 ≡ x = omega arith in
    let f : (b + 256 * x) / 256 / p ≡ (b + 256 * x) / (256 * p) =
      div-div-eq-div-mul (b + 256 * x) 256 p in
    let g : (b + 256 * x) / q ≡ x / p = rw e (sym f ∙ rw d) in rw (g, e) (omega arith)

or_low-cons : (b x k : ℕ) → b < 256 → or_low b 8 + 256 * or_low x k ≡ or_low (b + 256 * x) (k + 8)
or_low-cons b x k lt =
    let e = or_low-byte b x (2 ^ k) (2 ^ (k + 8)) lt (pow-pos k) (pow-add_eight k) in
    omega (arith, e)

fill_host-byte : (b k : ℕ) (bs : List ℕ) → fill_host (b ∷ bs) (k + 8) ≡ or_low b 8 ∷ fill_host bs k
unfolding fill_host
fill_host-byte b k bs =
    let some_left : (k + 8 == 0) ≡ false = ground arith in
    let whole : min (k + 8) 8 ≡ 8 = omega arith in
    let left : k + 8 - 8 ≡ k = omega arith in rw (some_left, whole) (rw left)

-- The loop over the bytes sets the low `host` bits of the number.
pub of_bytes-fill_host :
    (bs : List ℕ) (host : ℕ)
    → All (λ b. b < 256) bs
    → host ≤ 8 * length bs
    → of_bytes (fill_host bs host) ≡ or_low (of_bytes bs) host
unfolding of_bytes fill_host
of_bytes-fill_host [] zero h le = refl
of_bytes-fill_host [] (suc k) h le = absurd (omega arith)
of_bytes-fill_host (b ∷ bs) zero h le = omega arith
of_bytes-fill_host (b ∷ bs) (suc zero) h le = rw (fill_host-zero bs) (omega arith)
of_bytes-fill_host (b ∷ bs) (suc (suc zero)) h le = rw (fill_host-zero bs) (omega arith)
of_bytes-fill_host (b ∷ bs) (suc (suc (suc zero))) h le = rw (fill_host-zero bs) (omega arith)
of_bytes-fill_host (b ∷ bs) (suc (suc (suc (suc zero)))) h le = rw (fill_host-zero bs) (omega arith)
of_bytes-fill_host (b ∷ bs) (suc (suc (suc (suc (suc zero))))) h le =
    rw (fill_host-zero bs) (omega arith)
of_bytes-fill_host (b ∷ bs) (suc (suc (suc (suc (suc (suc zero)))))) h le =
    rw (fill_host-zero bs) (omega arith)
of_bytes-fill_host (b ∷ bs) (suc (suc (suc (suc (suc (suc (suc zero))))))) h le =
    rw (fill_host-zero bs) (omega arith)
of_bytes-fill_host (b ∷ bs) (suc (suc (suc (suc (suc (suc (suc (suc k)))))))) (lt, h) le =
    let e : suc (suc (suc (suc (suc (suc (suc (suc k))))))) ≡ k + 8 = omega arith in
    let ih = of_bytes-fill_host bs k h (omega arith) in
    rw e (ap of_bytes (fill_host-byte b k bs) ∙ (rw ih (or_low-cons b (of_bytes bs) k lt)))

pub of_bytes-to_bytes : (k n : ℕ) → n < 256 ^ k → of_bytes (to_bytes k n) ≡ n
unfolding of_bytes to_bytes
of_bytes-to_bytes zero n h = omega arith
of_bytes-to_bytes (suc k) n h = omega (arith, of_bytes-to_bytes k (n / 256), pow-suc 256 k)

pub to_bytes-All : (k n : ℕ) → All (λ b. b < 256) (to_bytes k n)
unfolding to_bytes
to_bytes-All zero n = tt
to_bytes-All (suc k) n = (omega arith, to_bytes-All k (n / 256))

pub length-to_bytes : (k n : ℕ) → length (to_bytes k n) ≡ k
unfolding to_bytes
length-to_bytes zero n = refl
length-to_bytes (suc k) n = ap suc (length-to_bytes k (n / 256))

-- An aligned block of numbers, as an interval and as a quotient.
pub block-eq_quotient :
    (p q x : ℕ) → 0 < p → (leb (q * p) x && leb x (q * p + (p - 1))) ≡ (x / p == q)
block-eq_quotient p q x pos =
    let a = le-div_iff_mul-le {k = p} {x = q} {y = x} pos in
    let b = div-lt_iff_lt-mul {k = p} {x = x} {y = q + 1} pos in ground (arith, a.0, a.1, b.0, b.1)
