-- ===== src/Limit/Refines.antt =====
-- ratelimit.go: while fewer keys than the cap are in use, the limiter answers as one without a cap.
use ip_unt1_com.Prelude.{
  ℕ, ◌*◌, ◌≤◌, ◌<◌, ◌≡◌, refl, true, List, [], ◌∷◌, none, some, Text, text_instance, leb, arith,
  Map, size, delete, lookup, insert, inl, inr, Bool-cases, Option-cases, sym, ap, subst, ◌∙◌,
  lt→ltb,
}
use ip_unt1_com.Prelude.Int.{sub_ℕ_parts}
use ip_unt1_com.Limit.{
  Bucket, second, fresh_bucket, take_token, idle_time, drop_idle, drop_some, allow,
}
use ip_unt1_com.Limit.Budget.{take_token_idle, take_token-nonneg, take_token-budget}
use ip_unt1_com.Limit.Capacity.{allow-found, allow-room, allow-full}
use ip_unt1_com.Limit.Ideal.{
  Ledger, charge, set_at, limiter, count_recent, Agrees, IsSound, Simulates, size-drop_idle,
  drop_idle-Simulates, insert-Simulates,
}

drop_some_fits :
    (max : ℕ) (order : List Text) (m : Map Text Bucket) → size m < max → drop_some max order m ≡ m
unfolding drop_some
drop_some_fits max [] m h = refl
drop_some_fits max (k ∷ ks) m h = rw (lt→ltb (size m) max h)

module _ (rate burst max : ℕ) (fills : 0 < rate) (one : 1 ≤ burst) where
  -- A call of both leads to the same answer and to states that correspond.
  abbrev pub Follows : ℕ → Map Text ℕ → Map Text Bucket → Ledger → Text → List Text → Type 0
  Follows now past m s key order =
      (m' : Map Text Bucket) × (allow (limiter rate burst max m) key now order
        ≡ (limiter rate burst max m', (charge rate burst s key now).1))
      × Simulates rate burst max now (insert key now past) m' (charge rate burst s key now).0

  module _ (now : ℕ) (past : Map Text ℕ) (m : Map Text Bucket) (s : Ledger) (key : Text)
      (order : List Text) (r : Simulates rate burst max now past m s) where
    Follows-found :
        (b : Bucket) → lookup key m ≡ some b → s key ≡ some b → Follows now past m s key order
    unfolding charge
    Follows-found b held owed =
        let b' = (take_token rate burst b now).0 in
        let sound = subst (IsSound rate burst max now) owed (r.sound key) in
        let (_, last) = take_token-budget rate burst b now in
        let full = take_token-nonneg rate burst b now sound.0 sound.1 in
        rw owed (
          insert key b' m,
          allow-found (limiter rate burst max m) key now order b held,
          insert-Simulates rate burst max now past m s key b' r full last,
        )

    -- The other limiter has no bucket either, or an idle one.
    charge_missing :
        Agrees rate burst max now none (s key)
        → charge rate burst s key now ≡ (set_at key (fresh_bucket burst now) s, true)
    unfolding charge
    charge_missing (inl same) = rw (← same)
    charge_missing (inr (_, (b, owed, idle))) =
        let (full, _) = subst (IsSound rate burst max now) owed (r.sound key) in
        let again : take_token rate burst b now ≡ (fresh_bucket burst now, true) =
          take_token_idle (limiter rate burst max []) b now fills one full idle in
        rw (owed, again)

    fresh-Simulates :
        (m0 : Map Text Bucket)
        → Simulates rate burst max now past m0 s
        → Simulates rate burst max now
            (insert key now past)
            (insert key (fresh_bucket burst now) m0)
            (set_at key (fresh_bucket burst now) s)
    fresh-Simulates m0 r0 =
        insert-Simulates rate burst max now past m0 s key (fresh_bucket burst now) r0
          (omega (arith, sub_ℕ_parts (burst * second) second)) refl

    Follows-missing :
        lookup key m ≡ none
        → count_recent (idle_time (limiter rate burst max m)) now (delete key past) < max
        → Follows now past m s key order
    Follows-missing missing calm =
        let l = limiter rate burst max m in
        let kept = drop_idle l now m in
        let e : charge rate burst s key now ≡ (set_at key (fresh_bucket burst now) s, true) =
          charge_missing
            (subst (λ o. Agrees rate burst max now o (s key)) missing (r.agrees key)) in
        elim (Bool-cases (leb max (size m))) [
          | inr room ↦ rw e (
            insert key (fresh_bucket burst now) m,
            allow-room l key now order missing room,
            fresh-Simulates m r,
          )
          | inl full ↦
              let fits =
                drop_some_fits max order kept
                  (omega (arith, size-drop_idle rate burst max now now past m s key r missing)) in
              rw e (
                insert key (fresh_bucket burst now) kept,
                allow-full l key now order missing full
                    ∙ ap
                        (λ k.
                          (limiter rate burst max (insert key (fresh_bucket burst now) k), true))
                        fits,
                fresh-Simulates kept (drop_idle-Simulates rate burst max now past m s r),
              )
        ]

    pub allow-Follows :
        count_recent (idle_time (limiter rate burst max m)) now (delete key past) < max
        → Follows now past m s key order
    allow-Follows calm = elim (Option-cases (lookup key m)) [
      | inl missing ↦ Follows-missing missing calm
      | inr (b, held) ↦
          elim (subst (λ o. Agrees rate burst max now o (s key)) held (r.agrees key)) [
            | inl same ↦ Follows-found b held (sym same)
            | inr (gone, _) ↦ absurd (ground (arith, gone))
          ]
    ]
