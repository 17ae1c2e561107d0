-- ===== src/Limit/Budget.antt =====
-- ratelimit.go: how much one bucket grants over a run of calls, and when.
use native.Mathlib.Nat.{lt-mul-div-succ, mul-le-mul_right}
use ip_unt1_com.Prelude.{
  ℕ, ◌+◌, ◌*◌, ◌≤◌, ◌<◌, ◌≡◌, refl, Bool, true, false, List, [], ◌∷◌, if◌then◌else◌, Bool-cases,
  inl, inr, arith, lt→ltb, ltb→lt, ap,
}
use ip_unt1_com.Prelude.Int.{
  ℤ, pos, pos_part, neg_part, sub_ℕ, ◌+ℤ◌, ◌-ℤ◌, ◌*ℤ◌, ltb_ℤ, ◌≤ℤ◌, int_laws, sub_ℕ_parts, *ℤ_parts,
}
use ip_unt1_com.Limit.{Bucket, RateLimiter, second, fresh_bucket, take_token, idle_time, is_idle}

abbrev pub count_true : Bool → ℕ
count_true true = 1
count_true false = 0

-- The bucket after calls at the given times, and how many of them were granted.
unfoldable pub run_bucket : ℕ → ℕ → Bucket → List ℕ → Bucket × ℕ
run_bucket rate burst b [] = (b, 0)
run_bucket rate burst b (t ∷ ts) =
    let (b', ok) = take_token rate burst b t in
    let (b'', n) = run_bucket rate burst b' ts in (b'', count_true ok + n)

-- The refill of a bucket, not yet capped.
abbrev filled : ℕ → Bucket → ℕ → ℤ
filled rate b now = b.tokens +ℤ sub_ℕ now b.last *ℤ rate

-- The three outcomes of a call, with the tokens that are left.
module _ (rate burst : ℕ) (b : Bucket) (now : ℕ) where
  abbrev capped : ℤ
  capped =
      if ltb_ℤ (pos (burst * second)) (filled rate b now)
      then pos (burst * second)
      else filled rate b now

  capped-le : (capped ≤ℤ filled rate b now) × (capped ≤ℤ pos (burst * second))
  capped-le = elim (Bool-cases (ltb_ℤ (pos (burst * second)) (filled rate b now))) [
    | inl over ↦ rw over (omega (int_laws, ltb→lt _ _ over), omega arith)
    | inr under ↦ rw under (omega arith, ground arith)
  ]

  take_token-granted :
      ltb_ℤ capped (pos second) ≡ false
      → take_token rate burst b now ≡ (record { tokens = capped -ℤ pos second; last = now }, true)
  unfolding take_token
  take_token-granted h = rw h

  take_token-denied :
      ltb_ℤ capped (pos second) ≡ true
      → take_token rate burst b now ≡ (record { tokens = capped; last = now }, false)
  unfolding take_token
  take_token-denied h = rw h

-- One call: what is granted and what is left is at most what was there and what was refilled.
pub take_token-budget :
    (rate burst : ℕ) (b : Bucket) (now : ℕ)
    → (pos (count_true (take_token rate burst b now).1 * second)
          +ℤ (take_token rate burst b now).0.tokens
        ≤ℤ filled rate b now)
      × ((take_token rate burst b now).0.last ≡ now)
take_token-budget rate burst b now =
    let (le, _) = capped-le rate burst b now in
    elim (Bool-cases (ltb_ℤ (capped rate burst b now) (pos second))) [
      | inl denied ↦ rw (take_token-denied rate burst b now denied) (omega int_laws, refl)
      | inr granted ↦ rw (take_token-granted rate burst b now granted) (omega int_laws, refl)
    ]

-- The refill between two times, by numbers.
sub_ℕ-rate : (a b r : ℕ) → pos_part (sub_ℕ a b *ℤ r) + b * r ≡ neg_part (sub_ℕ a b *ℤ r) + a * r
sub_ℕ-rate a b r = omega (arith, *ℤ_parts (sub_ℕ a b) r, ap (λ (x : ℕ). x * r) (sub_ℕ_parts a b))

-- Whatever the times: what is granted, in units, and what is left is at most what was there and
-- what the time between the first and the last call refills.
run_bucket-budget :
    (rate burst : ℕ) (b : Bucket) (ts : List ℕ)
    → let (b', n) = run_bucket rate burst b ts in
      pos (n * second) +ℤ b'.tokens ≤ℤ filled rate b b'.last
unfolding run_bucket
run_bucket-budget rate burst b [] = omega (int_laws, sub_ℕ-rate b.last b.last rate)
run_bucket-budget rate burst b (t ∷ ts) =
    let b' = (take_token rate burst b t).0 in
    let (one, same) = take_token-budget rate burst b t in
    let later = run_bucket-budget rate burst (take_token rate burst b t).0 ts in
    let end = (run_bucket rate burst (take_token rate burst b t).0 ts).0.last in
    omega (
      int_laws,
      one,
      later,
      ap (λ (x : ℕ). x * rate) same,
      sub_ℕ-rate end b'.last rate,
      sub_ℕ-rate t b.last rate,
      sub_ℕ-rate end b.last rate,
    )

filled-nonneg :
    (rate : ℕ) (b : Bucket) (now : ℕ)
    → pos 0 ≤ℤ b.tokens
    → b.last ≤ now
    → pos 0 ≤ℤ filled rate b now
filled-nonneg rate b now h le =
    omega (int_laws, sub_ℕ-rate now b.last rate, mul-le-mul_right rate le)

capped-nonneg :
    (rate burst : ℕ) (b : Bucket) (now : ℕ)
    → pos 0 ≤ℤ filled rate b now
    → pos 0 ≤ℤ capped rate burst b now
capped-nonneg rate burst b now h =
    elim (Bool-cases (ltb_ℤ (pos (burst * second)) (filled rate b now))) [
      | inl over ↦ rw over (omega arith)
      | inr under ↦ rw under h
    ]

pub take_token-nonneg :
    (rate burst : ℕ) (b : Bucket) (now : ℕ)
    → pos 0 ≤ℤ b.tokens
    → b.last ≤ now
    → pos 0 ≤ℤ (take_token rate burst b now).0.tokens
take_token-nonneg rate burst b now h le =
    elim (Bool-cases (ltb_ℤ (capped rate burst b now) (pos second))) [
      | inl denied ↦
          rw (take_token-denied rate burst b now denied)
            (capped-nonneg rate burst b now (filled-nonneg rate b now h le))
      | inr granted ↦
          let enough : pos second ≤ℤ capped rate burst b now = ground arith in
          rw (take_token-granted rate burst b now granted) (omega int_laws)
    ]

take_token_full :
    (rate burst : ℕ) (b : Bucket) (now : ℕ)
    → 1 ≤ burst
    → ltb_ℤ (pos (burst * second)) (filled rate b now) ≡ true
    → take_token rate burst b now ≡ (fresh_bucket burst now, true)
unfolding take_token
take_token_full rate burst b now one over =
    let plenty : ltb_ℤ (pos (burst * second)) (pos second) ≡ false = ground arith in
    let left : pos (burst * second) -ℤ pos second ≡ sub_ℕ (burst * second) second =
      omega int_laws in
    rw (over, plenty, left)

-- A bucket that has been idle for `idle_time` grants and becomes what a fresh one does.
pub take_token_idle :
    (l : RateLimiter) (b : Bucket) (now : ℕ)
    → 0 < l.rate
    → 1 ≤ l.burst
    → pos 0 ≤ℤ b.tokens
    → is_idle l now b ≡ true
    → take_token l.rate l.burst b now ≡ (fresh_bucket l.burst now, true)
take_token_idle l b now r n h idle =
    let late : b.last + idle_time l < now = ltb→lt _ _ idle in
    let over : pos_part (pos (l.burst * second)) + neg_part (filled l.rate b now)
        < pos_part (filled l.rate b now) + neg_part (pos (l.burst * second)) =
      omega (
        int_laws,
        sub_ℕ-rate now b.last l.rate,
        lt-mul-div-succ (l.burst * second) {b = l.rate} r,
        mul-le-mul_right l.rate late,
      ) in
    take_token_full l.rate l.burst b now n (lt→ltb _ _ over)

-- The times of calls, in order.
abbrev pub IsAscending : ℕ → List ℕ → Type 0
IsAscending t [] = Unit
IsAscending t (u ∷ us) = (t ≤ u) × IsAscending u us

run_bucket-nonneg :
    (rate burst : ℕ) (b : Bucket) (ts : List ℕ)
    → pos 0 ≤ℤ b.tokens
    → IsAscending b.last ts
    → pos 0 ≤ℤ (run_bucket rate burst b ts).0.tokens
unfolding run_bucket
run_bucket-nonneg rate burst b [] h a = h
run_bucket-nonneg rate burst b (t ∷ ts) h (le, a) =
    let (_, same) = take_token-budget rate burst b t in
    run_bucket-nonneg rate burst (take_token rate burst b t).0 ts
      (take_token-nonneg rate burst b t h le) (rw same a)

-- A key that is granted a fresh bucket at `start` and calls again at later times is granted, the
-- first call included, at most the burst and what the rate gives until the last call.
pub run_bucket-fresh :
    (rate burst start : ℕ) (ts : List ℕ)
    → 1 ≤ burst
    → IsAscending start ts
    → ((run_bucket rate burst (fresh_bucket burst start) ts).1 + 1) * second + start * rate
      ≤ burst * second + (run_bucket rate burst (fresh_bucket burst start) ts).0.last * rate
run_bucket-fresh rate burst start ts one a =
    let b = fresh_bucket burst start in
    let h : pos 0 ≤ℤ b.tokens = omega (arith, sub_ℕ_parts (burst * second) second) in
    omega (
      int_laws,
      run_bucket-budget rate burst b ts,
      run_bucket-nonneg rate burst b ts h a,
      sub_ℕ-rate (run_bucket rate burst b ts).0.last start rate,
    )

module _ (rate burst : ℕ) (b : Bucket) (now : ℕ) where
  capped_over :
      1 ≤ burst
      → ltb_ℤ (pos (burst * second)) (filled rate b now) ≡ true
      → ltb_ℤ (capped rate burst b now) (pos second) ≡ false
  capped_over one over = rw over (ground arith)

  capped_under :
      pos second ≤ℤ filled rate b now
      → ltb_ℤ (pos (burst * second)) (filled rate b now) ≡ false
      → ltb_ℤ (capped rate burst b now) (pos second) ≡ false
  capped_under refilled under = rw under (ground arith)

-- A caller who waits long enough for one token to be refilled is granted one.
pub take_token_after_wait :
    (rate burst : ℕ) (b : Bucket) (now : ℕ)
    → 1 ≤ burst
    → pos 0 ≤ℤ b.tokens
    → b.last * rate + second ≤ now * rate
    → (take_token rate burst b now).1 ≡ true
take_token_after_wait rate burst b now one h wait =
    let refilled : pos second ≤ℤ filled rate b now = omega (int_laws, sub_ℕ-rate now b.last rate) in
    let enough : ltb_ℤ (capped rate burst b now) (pos second) ≡ false =
      elim (Bool-cases (ltb_ℤ (pos (burst * second)) (filled rate b now))) [
        | inl over ↦ capped_over rate burst b now one over
        | inr under ↦ capped_under rate burst b now refilled under
      ] in
    rw (take_token-granted rate burst b now enough)
