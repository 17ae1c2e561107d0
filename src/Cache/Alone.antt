-- ===== src/Cache/Alone.antt =====
-- cache.go: `Do` for a caller whom no other one meets, which is how the look-ups use the cache.
use ip_unt1_com.Prelude.{
  ℕ, ◌+◌, ◌≤◌, ◌<◌, ◌≡◌, refl, ◌⊎◌, inl, inr, List, none, some, Text, text_eq_refl, text_instance,
  if◌then◌else◌, ltb, Bool-cases, lt→ltb, size, insert, ◌∙◌,
}
use ip_unt1_com.Prelude.Int.{ℤ, pos}
use ip_unt1_com.Cache.{TtlCache, get, store}
use ip_unt1_com.Cache.Store.{get-store}

-- The clocks that a call reads, when it enters, when it stores and when it evicts, and the order
-- in which the eviction meets the keys.
pub record Times : Type 0 where
  pub entered : ℕ
  pub stored : ℕ
  pub evicted : ℕ
  pub order : List Text

module _ {ℓ} {V : Type ℓ} where
  -- `Do`, with what `fn` would return and how long that is kept.
  unfoldable pub do_alone : TtlCache V → Text → Times → V × ℤ → TtlCache V × V
  do_alone c key t answer = elim (get c key t.entered) [
    | some v ↦ (c, v)
    | none ↦ (store c key answer.0 answer.1 t.stored t.evicted t.order, answer.0)
  ]

  -- Nothing has to make room for the entry of a key.
  abbrev pub HasPlace : TtlCache V → Text → V → ℕ → Type 0
  HasPlace c key val expires =
      (c.max ≡ 0) ⊎ (size (insert key (record { val = val; expires = expires }) c.entries) ≤ c.max)

  answer_hit :
      (c : TtlCache V) (key : Text) (t : Times) (v : V) (new : V × ℤ)
      → get c key t.entered ≡ some v
      → do_alone c key t new ≡ (c, v)
  unfolding do_alone
  answer_hit c key t v new hit = rw (hit, do_alone)

  answer_miss :
      (c : TtlCache V) (key : Text) (t : Times) (new : V × ℤ)
      → get c key t.entered ≡ none
      → do_alone c key t new ≡ (store c key new.0 new.1 t.stored t.evicted t.order, new.0)
  unfolding do_alone
  answer_miss c key t new miss = rw (miss, do_alone)

  -- Who asks again has the first answer as long as it is kept, and a new one from then on.
  pub do_alone_again :
      (c : TtlCache V) (key : Text) (t u : Times) (val : V) (ttl : ℕ) (new : V × ℤ)
      → get c key t.entered ≡ none
      → 0 < ttl
      → HasPlace c key val (t.stored + ttl)
      → (do_alone (do_alone c key t (val, pos ttl)).0 key u new).1
        ≡ (if ltb u.entered (t.stored + ttl) then val else new.0)
  do_alone_again c key t u val ttl new miss kept place =
      let c' = store c key val (pos ttl) t.stored t.evicted t.order in
      let found : get c' key u.entered
          ≡ (if ltb u.entered (t.stored + ttl) then some val else none) =
        get-store c key key val (pos ttl) t.stored t.evicted u.entered t.order place
        ∙ rw (text_eq_refl key, lt→ltb 0 ttl kept) refl in
      rw (answer_miss c key t (val, pos ttl) miss)
        (elim (Bool-cases (ltb u.entered (t.stored + ttl))) [
          | inl fresh ↦ rw (answer_hit c' key u val new (found ∙ rw fresh refl), fresh) refl
          | inr stale ↦ rw (answer_miss c' key u new (found ∙ rw stale refl), stale) refl
        ])
