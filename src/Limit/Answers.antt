-- ===== src/Limit/Answers.antt =====
-- ratelimit.go: the answers of the limiter over a run of calls, and those of one without a cap.
use ip_unt1_com.Prelude.{
  ℕ, ◌≤◌, ◌<◌, ◌≡◌, refl, Bool, List, [], ◌∷◌, none, Text, text_instance, lookup, arith, Map,
  insert, delete, ap, inl,
}
use ip_unt1_com.Limit.{Bucket, RateLimiter, idle_time, allow, new_rate_limiter}
use ip_unt1_com.Limit.Ideal.{Ledger, charge, limiter, count_recent, Simulates, Simulates-later}
use ip_unt1_com.Limit.Refines.{allow-Follows}

-- Calls of `Allow`: the key, the time, and the order in which an eviction meets the keys.
abbrev pub Turns : Type 0
Turns = List (Text × ℕ × List Text)

unfoldable pub answers : RateLimiter → Turns → List Bool
answers l [] = []
answers l ((key, now, order) ∷ cs) = let (l', ok) = allow l key now order in ok ∷ answers l' cs

-- The answers without a cap.
unfoldable pub charges : ℕ → ℕ → Ledger → Turns → List Bool
charges rate burst s [] = []
charges rate burst s ((key, now, order) ∷ cs) =
    let (s', ok) = charge rate burst s key now in ok ∷ charges rate burst s' cs

-- The calls come one after the other, and at each the other keys that called within the idle time
-- before it are fewer than the cap; `past` has the last call of each key, none of them after `now`.
abbrev pub IsCalm : RateLimiter → ℕ → Map Text ℕ → Turns → Type 0
IsCalm l now past [] = Unit
IsCalm l now past ((key, t, order) ∷ cs) =
    (now ≤ t)
    × (count_recent (idle_time l) t (delete key past) < l.max)
    × IsCalm l t (insert key t past) cs

module _ (rate burst max : ℕ) (fills : 0 < rate) (one : 1 ≤ burst) where
  answers-Simulates :
      (now : ℕ) (past : Map Text ℕ) (m : Map Text Bucket) (s : Ledger) (cs : Turns)
      → Simulates rate burst max now past m s
      → IsCalm (limiter rate burst max []) now past cs
      → answers (limiter rate burst max m) cs ≡ charges rate burst s cs
  unfolding answers charges
  answers-Simulates now past m s [] r calm = refl
  answers-Simulates now past m s ((key, t, order) ∷ cs) r (le, few, calm) =
      let later = Simulates-later rate burst max now t past m s le r in
      let (m', step, r') = allow-Follows rate burst max fills one t past m s key order later few in
      let rest =
        answers-Simulates t (insert key t past) m' (charge rate burst s key t).0 cs r' calm in
      rw step (ap (λ bs. (charge rate burst s key t).1 ∷ bs) rest)

-- With a positive rate and a burst of one or more: as long as the calls come in the order of their
-- times, and none finds as many other keys as the cap that called within the idle time before it,
-- the limiter, from its start on, gives the answers of a limiter that never drops a bucket.
pub answers-refines :
    (rate burst max : ℕ) (cs : Turns)
    → 0 < rate
    → 1 ≤ burst
    → IsCalm (new_rate_limiter rate burst max) 0 [] cs
    → answers (new_rate_limiter rate burst max) cs ≡ charges rate burst (λ k. none) cs
unfolding new_rate_limiter lookup
answers-refines rate burst max cs fills one calm =
    let start : Simulates rate burst max 0 [] [] (λ k. none) = record {
      agrees = λ k. inl refl;
      sound = λ k. tt;
      recorded = λ k b h. absurd (ground (arith, h));
      distinct = tt;
      distinct_past = tt;
    } in
    answers-Simulates rate burst max fills one 0 [] [] (λ k. none) cs start calm
