-- ===== src/Cache/Drains.antt =====
-- cache.go: callers of `Do` never block one another for good.
use ip_unt1_com.Prelude.{
  ℕ, zero, suc, ◌*◌, ◌≤◌, ◌<◌, ◌≡◌, ◌≢◌, refl, ◌⊎◌, inl, inr, [], Text, Bool-cases, arith, leb,
  leb→le,
}
use ip_unt1_com.Prelude.Int.{pos}
use ip_unt1_com.Cache.{
  Pc, ready, computing, waiting, closing, returned, System, finish, close, enter, wake,
}
use ip_unt1_com.Cache.Flight.{Step, enters, finishes, closes, wakes, Reach-Inv}
use ip_unt1_com.Cache.Runs.{caller, Run, Run-total, total-start, Run-Reach, Run-ready}

-- All numbers below a bound have it.
abbrev pub AllBelow {ℓ} : (ℕ → Type ℓ) → ℕ → Type ℓ
AllBelow A zero = Unit
AllBelow A (suc n) = A n × AllBelow A n

-- Either all have it, or there is the other.
every_or {ℓ κ} :
    {A : ℕ → Type ℓ} {B : Type κ} (n : ℕ) → ((i : ℕ) → i < n → A i ⊎ B) → AllBelow A n ⊎ B
every_or zero each = inl tt
every_or {A} {B} (suc n) each = elim (each n (omega arith)) [
  | inr b ↦ inr b
  | inl a ↦ elim (every_or n (λ i h. each i (omega (arith, h)))) [
    | inr b ↦ inr b
    | inl all ↦ inl (a, all)
  ]
]

module _ {ℓ} {V : Type ℓ} (job : ℕ → Text) where
  abbrev pub HasReturned : Pc V → Type ℓ
  HasReturned p = (v : V) × (p ≡ returned v)

  -- A step that one of the callers below `n` can take.
  abbrev pub CanStep : ℕ → System V → Type ℓ
  CanStep n s = (t : System V) × (st : Step job s t) × (caller job st < n)

  module _ {max n k : ℕ} {s : System V} (r : Run job max n k s) (any_value : V) where
    -- Who is waited for has come.
    came : (o : ℕ) → s.pc o ≢ ready → o < n
    came o not_ready = elim (Bool-cases (leb n o)) [
      | inl above ↦ absurd (not_ready (Run-ready job o r (leb→le n o above)))
      | inr below ↦ ground arith
    ]

    caller-CanStep : (i : ℕ) (p : Pc V) → s.pc i ≡ p → i < n → HasReturned p ⊎ CanStep n s
    caller-CanStep i ready h below = inr (enter s i (job i) 0, enters i 0 h refl, below)
    caller-CanStep i computing h below = inr (
      finish s i (job i) any_value (pos 0) 0 0 [],
      finishes i any_value (pos 0) 0 0 [] h refl,
      below,
    )
    caller-CanStep i (closing v) h below = inr (close s i v, closes i v h refl, below)
    caller-CanStep i (returned v) h below = inl (v, refl)
    caller-CanStep i (waiting o) h below =
        elim (((Reach-Inv job (Run-Reach job r)).served i o h).1) [
          | inl running ↦ inr (
            finish s o (job o) any_value (pos 0) 0 0 [],
            finishes o any_value (pos 0) 0 0 [] running refl,
            came o (λ e. cc),
          )
          | inr (v, left, inl about) ↦ inr (close s o v, closes o v about refl, came o (λ e. cc))
          | inr (v, left, inr closed) ↦ inr (wake s i v, wakes i o v h closed left refl, below)
        ]

  -- Of `n` callers, in every interleaving: no run has more than `3 * n` steps, and after every run
  -- either all callers have returned or one of them can take a step, where a computation may end
  -- with any value and there is one.
  pub Run-returned :
      {max n k : ℕ} {s : System V}
      → Run job max n k s
      → V
      → (k ≤ 3 * n) × (AllBelow (λ i. HasReturned (s.pc i)) n ⊎ CanStep n s)
  Run-returned {max} {n} {k} {s} r any_value = (
    omega (arith, Run-total job r, total-start V n),
    every_or n (λ i below. caller-CanStep r any_value i (s.pc i) refl below),
  )
