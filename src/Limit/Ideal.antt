-- ===== src/Limit/Ideal.antt =====
-- ratelimit.go: the limiter without a cap, and how the one with a cap keeps up with it.
use ip_unt1_com.Prelude.{
  ℕ, ◌+◌, ◌≤◌, ◌≡◌, refl, Bool, true, not, [], Option, none, some, Text, text_eq, text_instance,
  ltb, if◌then◌else◌, arith, Map, size, filter, lookup, insert, lookup-insert, ◌⊎◌, inl, inr,
  Bool-cases, Option-cases, contains, contains-eq_lookup, is_some, delete, lookup-delete,
  text_eq_iff, sym, ap, ◌∙◌,
}
use ip_unt1_com.Prelude.Distinct.{
  IsDistinct, insert-IsDistinct, delete-IsDistinct, filter-IsDistinct, lookup-filter, keep_if,
  keep_if-eq_some, size-le-size,
}
use ip_unt1_com.Prelude.Int.{pos, ◌≤ℤ◌}
use ip_unt1_com.Limit.{Bucket, RateLimiter, fresh_bucket, take_token, is_idle, idle_time, drop_idle}

-- A bucket for every key that ever called: none is ever dropped.
abbrev pub Ledger : Type 0
Ledger = Text → Option Bucket

abbrev pub set_at : Text → Bucket → Ledger → Ledger
set_at key b s k = if text_eq key k then some b else s k

abbrev pub charge_bucket : ℕ → ℕ → ℕ → Option Bucket → Bucket × Bool
charge_bucket rate burst now none = (fresh_bucket burst now, true)
charge_bucket rate burst now (some b) = take_token rate burst b now

-- A call of the limiter without a cap.
unfoldable pub charge : ℕ → ℕ → Ledger → Text → ℕ → Ledger × Bool
charge rate burst s key now =
    let (b, ok) = charge_bucket rate burst now (s key) in (set_at key b s, ok)

-- A bucket that was last used at `t` is not idle at `now`, where `idle` is the idle time.
abbrev pub used_lately : ℕ → ℕ → ℕ → Bool
used_lately idle now t = not (ltb (t + idle) now)

-- How many keys called lately; a map holds the time of each key's last call.
abbrev pub count_recent : ℕ → ℕ → Map Text ℕ → ℕ
count_recent idle now past = size (filter (λ e. used_lately idle now e.1) past)

module _ (rate burst max : ℕ) where
  abbrev pub limiter : Map Text Bucket → RateLimiter
  limiter m = record { buckets = m; rate = rate; burst = burst; max = max }

  -- The same bucket, or none where the other is idle.
  abbrev pub Agrees : ℕ → Option Bucket → Option Bucket → Type 0
  Agrees now held owed =
      (held ≡ owed)
      ⊎ ((held ≡ none) × ((b : Bucket) × (owed ≡ some b) × (is_idle (limiter []) now b ≡ true)))

  abbrev pub IsSound : ℕ → Option Bucket → Type 0
  IsSound now none = Unit
  IsSound now (some b) = (pos 0 ≤ℤ b.tokens) × (b.last ≤ now)

  -- After calls that `past` has the last times of, none of them after `now`.
  pub record Simulates (now : ℕ) (past : Map Text ℕ) (m : Map Text Bucket) (s : Ledger)
      : Type 0 where
    pub agrees : (k : Text) → Agrees now (lookup k m) (s k)
    pub sound : (k : Text) → IsSound now (s k)
    pub distinct : IsDistinct m
    pub recorded : (k : Text) (b : Bucket) → lookup k m ≡ some b → lookup k past ≡ some b.last
    pub distinct_past : IsDistinct past

  Agrees-later :
      (now later : ℕ) (held owed : Option Bucket)
      → now ≤ later
      → Agrees now held owed
      → Agrees later held owed
  Agrees-later now later held owed le (inl same) = inl same
  Agrees-later now later held owed le (inr (gone, (b, there, idle))) =
      inr (gone, (b, there, ground arith))

  IsSound-later :
      (now later : ℕ) (o : Option Bucket) → now ≤ later → IsSound now o → IsSound later o
  IsSound-later now later none le h = tt
  IsSound-later now later (some b) le h = (h.0, omega arith)

  -- To let a call pass, and to drop what is idle.
  pub Simulates-later :
      (now later : ℕ) (past : Map Text ℕ) (m : Map Text Bucket) (s : Ledger)
      → now ≤ later
      → Simulates now past m s
      → Simulates later past m s
  Simulates-later now later past m s le r = record {
    agrees = λ k. Agrees-later now later (lookup k m) (s k) le (r.agrees k);
    sound = λ k. IsSound-later now later (s k) le (r.sound k);
    distinct = r.distinct;
    recorded = r.recorded;
    distinct_past = r.distinct_past;
  }

  Agrees-keep_if :
      (now : ℕ) (held owed : Option Bucket)
      → Agrees now held owed
      → Agrees now (keep_if (λ b. not (is_idle (limiter []) now b)) held) owed
  Agrees-keep_if now none owed h = h
  Agrees-keep_if now (some b) owed (inr (gone, rest)) = absurd (ground (arith, gone))
  Agrees-keep_if now (some b) owed (inl same) = elim (Bool-cases (is_idle (limiter []) now b)) [
    | inl idle ↦ rw idle (inr (refl, (b, sym same, idle)))
    | inr used ↦ rw used (inl same)
  ]

  pub drop_idle-Simulates :
      (now : ℕ) (past : Map Text ℕ) (m : Map Text Bucket) (s : Ledger)
      → Simulates now past m s
      → Simulates now past (drop_idle (limiter m) now m) s
  drop_idle-Simulates now past m s r = record {
    agrees = λ k.
        rw (lookup-filter (λ b. not (is_idle (limiter []) now b)) k m r.distinct)
          (Agrees-keep_if now (lookup k m) (s k) (r.agrees k));
    sound = r.sound;
    distinct = filter-IsDistinct (λ b. not (is_idle (limiter []) now b)) m r.distinct;
    recorded = λ k b h.
        let found : keep_if (λ c. not (is_idle (limiter []) now c)) (lookup k m) ≡ some b =
          sym (lookup-filter (λ c. not (is_idle (limiter []) now c)) k m r.distinct) ∙ h in
        r.recorded k b (keep_if-eq_some _ (lookup k m) b found).0;
    distinct_past = r.distinct_past;
  }

  -- The keys whose buckets are not idle called lately; a key that has no bucket is none of them.
  module _ (now t : ℕ) (past : Map Text ℕ) (m : Map Text Bucket) (s : Ledger) (key : Text)
      (r : Simulates now past m s) (missing : lookup key m ≡ none) where
    abbrev kept : Map Text Bucket
    kept = drop_idle (limiter m) t m

    abbrev recent : Map Text ℕ
    recent = filter (λ e. used_lately (idle_time (limiter m)) t e.1) (delete key past)

    contains-recent : (k : Text) → contains k kept ≡ true → contains k recent ≡ true
    contains-recent k h = elim (Option-cases (lookup k kept)) [
      | inl none' ↦ absurd (ground (arith, contains-eq_lookup k kept))
      | inr (b, there) ↦
          let (held, used) =
            keep_if-eq_some _ (lookup k m) b
              (sym (lookup-filter (λ c. not (is_idle (limiter []) t c)) k m r.distinct) ∙ there) in
          let other : lookup k (delete key past) ≡ some b.last = ground (
            arith,
            lookup-delete key k past,
            text_eq_iff key k,
            r.recorded k b held,
            held,
            missing,
          ) in
          let called =
            lookup-filter (used_lately (idle_time (limiter [])) t) k (delete key past)
              (delete-IsDistinct key past r.distinct_past)
            ∙ ap (keep_if (used_lately (idle_time (limiter [])) t)) other in
          contains-eq_lookup k recent ∙ ap is_some called ∙ rw used
    ]

    pub size-drop_idle : size kept ≤ count_recent (idle_time (limiter m)) t (delete key past)
    size-drop_idle =
        size-le-size kept recent
          (filter-IsDistinct (λ b. not (is_idle (limiter []) t b)) m r.distinct) contains-recent

  -- Both write the same bucket.
  pub insert-Simulates :
      (now : ℕ) (past : Map Text ℕ) (m : Map Text Bucket) (s : Ledger) (key : Text) (b : Bucket)
      → Simulates now past m s
      → pos 0 ≤ℤ b.tokens
      → b.last ≡ now
      → Simulates now (insert key now past) (insert key b m) (set_at key b s)
  insert-Simulates now past m s key b r full same = record {
    agrees = λ k. rw (lookup-insert key k b m) (Agrees-set_at k);
    sound = IsSound-set_at;
    distinct = insert-IsDistinct key b m r.distinct;
    recorded = λ k c h.
        ground
          (arith, lookup-insert key k b m, lookup-insert key k now past, r.recorded k c, h, same);
    distinct_past = insert-IsDistinct key now past r.distinct_past;
  }
    where
      Agrees-set_at :
          (k : Text) → Agrees now (if text_eq key k then some b else lookup k m) (set_at key b s k)
      Agrees-set_at k = elim (Bool-cases (text_eq key k)) [
        | inl own ↦ rw own (inl refl)
        | inr other ↦ rw other (r.agrees k)
      ]

      IsSound-set_at : (k : Text) → IsSound now (set_at key b s k)
      IsSound-set_at k = elim (Bool-cases (text_eq key k)) [
        | inl own ↦ rw own (full, omega (arith, same))
        | inr other ↦ rw other (r.sound k)
      ]
