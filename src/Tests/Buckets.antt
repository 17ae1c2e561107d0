-- ===== src/Tests/Buckets.antt =====
-- The rate limiter, run.
use ip_unt1_com.Prelude.{
  lookup, insert, delete, text_eq, ◌≡◌, refl, true, false, [], ◌∷◌, none, bytes, arith,
  text_instance,
}
use ip_unt1_com.Prelude.Int.{sub_ℕ, ◌+ℤ◌, ◌-ℤ◌, ◌*ℤ◌}
use ip_unt1_com.Limit.{new_rate_limiter, allow, evict_locked, drop_some, take_token}
use ip_unt1_com.Limit.Answers.{Turns, answers, charges, IsCalm, answers-refines}

-- The cap of two keys is met at the third key, when the first two are idle.
abbrev turns : Turns
turns =
    (bytes "a", 5, [])
    ∷ (bytes "b", 6, [])
    ∷ (bytes "c", 3_000_000_000, [])
    ∷ (bytes "a", 3_000_000_001, [])
    ∷ (bytes "a", 3_000_000_002, [])
    ∷ []

turns-IsCalm : IsCalm (new_rate_limiter 1 1 2) 0 [] turns
unfolding new_rate_limiter insert delete text_eq bytes
turns-IsCalm = omega arith

answers-refines_example : answers (new_rate_limiter 1 1 2) turns ≡ charges 1 1 (λ k. none) turns
answers-refines_example = answers-refines 1 1 2 turns (omega arith) (omega arith) turns-IsCalm

answers_run : answers (new_rate_limiter 1 1 2) turns ≡ true ∷ true ∷ true ∷ true ∷ false ∷ []
unfolding answers new_rate_limiter allow evict_locked drop_some take_token sub_ℕ ◌+ℤ◌ ◌-ℤ◌ ◌*ℤ◌
    lookup insert bytes text_eq
answers_run = refl
