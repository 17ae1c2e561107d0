-- ===== src/Limit/Callers.antt =====
-- ratelimit.go: what one caller is granted among the calls of others.
use ip_unt1_com.Prelude.{
  ℕ, ◌+◌, ◌*◌, ◌≤◌, ◌<◌, ◌≡◌, refl, inl, inr, Bool, List, [], ◌∷◌, Option, none, some, Text,
  text_eq, text_eq_iff, text_instance, if◌then◌else◌, Bool-cases, arith, ◌∙◌, ap, subst, Map,
  insert,
}
use ip_unt1_com.Limit.{Bucket, RateLimiter, second, fresh_bucket, take_token, new_rate_limiter}
use ip_unt1_com.Limit.Budget.{
  count_true, run_bucket, IsAscending, run_bucket-fresh, take_token-budget,
}
use ip_unt1_com.Limit.Ideal.{Ledger, charge, charge_bucket}
use ip_unt1_com.Limit.Answers.{Turns, answers, charges, answers-refines, IsCalm}

unfoldable pub times_of : Text → Turns → List ℕ
times_of k [] = []
times_of k ((key, now, order) ∷ cs) =
    let rest = times_of k cs in if text_eq key k then now ∷ rest else rest

pub last_time : ℕ → List ℕ → ℕ
last_time t [] = t
last_time t (u ∷ us) = last_time u us

-- How many of a key's calls are granted.
unfoldable pub granted : Text → Turns → List Bool → ℕ
granted k [] oks = 0
granted k (c ∷ cs) [] = 0
granted k ((key, now, order) ∷ cs) (ok ∷ oks) =
    (if text_eq key k then count_true ok else 0) + granted k cs oks

last-run_bucket :
    (rate burst : ℕ) (b : Bucket) (ts : List ℕ)
    → (run_bucket rate burst b ts).0.last ≡ last_time b.last ts
unfolding run_bucket last_time
last-run_bucket rate burst b [] = refl
last-run_bucket rate burst b (t ∷ ts) =
    last-run_bucket rate burst (take_token rate burst b t).0 ts
    ∙ ap (λ u. last_time u ts) (take_token-budget rate burst b t).1

module _ (rate burst : ℕ) where
  -- What a key with this bucket, or none, is granted by itself.
  abbrev run_owed : Option Bucket → List ℕ → ℕ
  run_owed o [] = 0
  run_owed o (t ∷ ts) =
      let (b, ok) = charge_bucket rate burst t o in count_true ok + (run_bucket rate burst b ts).1

  run_owed-some : (b : Bucket) (ts : List ℕ) → run_owed (some b) ts ≡ (run_bucket rate burst b ts).1
  unfolding run_bucket
  run_owed-some b [] = refl
  run_owed-some b (t ∷ ts) = refl

  -- Without a cap, the calls of others do not matter.
  granted-charges :
      (k : Text) (s : Ledger) (cs : Turns)
      → granted k cs (charges rate burst s cs) ≡ run_owed (s k) (times_of k cs)
  unfolding granted charges times_of charge
  granted-charges k s [] = refl
  granted-charges k s ((key, now, order) ∷ cs) =
      let rest = granted-charges k (charge rate burst s key now).0 cs in
      elim (Bool-cases (text_eq key k)) [
        | inl own ↦
            let same : s key ≡ s k = ap s (ground (arith, text_eq_iff key k)) in
            let b = (charge_bucket rate burst now (s key)).0 in
            let there : (charge rate burst s key now).0 k ≡ some b = rw own refl in
            let later =
              rest ∙ ap (λ o. run_owed o (times_of k cs)) there ∙ run_owed-some b (times_of k cs) in
            rw (own, ← same) (omega (arith, later))
        | inr other ↦
            let there : (charge rate burst s key now).0 k ≡ s k = rw other refl in
            rw other (omega (arith, rest ∙ ap (λ o. run_owed o (times_of k cs)) there))
      ]

IsAscending-earlier : (t u : ℕ) (us : List ℕ) → t ≤ u → IsAscending u us → IsAscending t us
IsAscending-earlier t u [] le a = tt
IsAscending-earlier t u (v ∷ us) le (le', a) = (omega arith, a)

times_of-IsAscending :
    (k : Text) (l : RateLimiter) (now : ℕ) (past : Map Text ℕ) (cs : Turns)
    → IsCalm l now past cs
    → IsAscending now (times_of k cs)
unfolding times_of
times_of-IsAscending k l now past [] calm = tt
times_of-IsAscending k l now past ((key, t, order) ∷ cs) (le, few, calm) =
    let rest = times_of-IsAscending k l t (insert key t past) cs calm in
    elim (Bool-cases (text_eq key k)) [
      | inl own ↦ rw own (le, rest)
      | inr other ↦ rw other (IsAscending-earlier now t (times_of k cs) le rest)
    ]

-- Among any calls of others, as long as no call finds as many other keys as the cap that called
-- within the idle time before it: a key is granted, from the start of the limiter, at most the
-- burst and what the rate gives from the key's first call to its last.
pub grants-budget :
    (rate burst max : ℕ) (k : Text) (cs : Turns) (start : ℕ) (ts : List ℕ)
    → 0 < rate
    → 1 ≤ burst
    → IsCalm (new_rate_limiter rate burst max) 0 [] cs
    → times_of k cs ≡ start ∷ ts
    → granted k cs (answers (new_rate_limiter rate burst max) cs) * second + start * rate
      ≤ burst * second + last_time start ts * rate
grants-budget rate burst max k cs start ts fills one calm calls =
    let count =
      ap (granted k cs) (answers-refines rate burst max cs fills one calm)
      ∙ granted-charges rate burst k (λ j. none) cs
      ∙ ap (run_owed rate burst none) calls in
    let asc =
      subst (IsAscending 0) calls
        (times_of-IsAscending k (new_rate_limiter rate burst max) 0 [] cs calm) in
    let bound = run_bucket-fresh rate burst start ts one asc.1 in
    let last = ap (λ t. t * rate) (last-run_bucket rate burst (fresh_bucket burst start) ts) in
    omega (arith, ap (λ n. n * second) count, bound, last)
