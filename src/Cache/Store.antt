-- ===== src/Cache/Store.antt =====
-- What the cache holds after a store: its size, and what `Get` answers.
use ip_unt1_com.Prelude.{
  ℕ, ◌+◌, ◌≤◌, ◌<◌, ◌≡◌, ◌⊎◌, inl, inr, true, ◌||◌, List, [], ◌∷◌, none, some, Text, text_eq,
  text_instance, leb, ltb, if◌then◌else◌, Bool-cases, arith, Map, size, insert, delete,
  lookup-insert,
}
use ip_unt1_com.Prelude.Int.{ℤ, pos_part}
use ip_unt1_com.Prelude.Ranging.{Covers, Covers-delete, Covers-nil, Covers-filter}
use ip_unt1_com.Cache.{
  CacheEntry, TtlCache, is_positive, get, drop_expired, drop_until, evict, store,
}

module _ {ℓ} {V : Type ℓ} where
  drop_until-size :
      (max : ℕ) (order : List Text) (m : Map Text (CacheEntry V))
      → Covers order m
      → size (drop_until max order m) ≤ max
  unfolding drop_until
  drop_until-size max [] m c = omega (arith, Covers-nil m c)
  drop_until-size max (k ∷ ks) m c =
      let rest = drop_until-size max ks (delete k m) (Covers-delete k ks m c) in
      elim (Bool-cases (leb (size m) max)) [
        | inl fits ↦ rw fits (ground arith)
        | inr full ↦ rw full rest
      ]

  evict-size :
      (c : TtlCache V) (now : ℕ) (order : List Text)
      → 0 < c.max
      → Covers order c.entries
      → size (evict c now order).entries ≤ c.max
  unfolding evict
  evict-size c now order h cov = elim (Bool-cases (leb c.max 0 || leb (size c.entries) c.max)) [
    | inl fits ↦ rw fits (ground arith)
    | inr full ↦ rw full (
        drop_until-size c.max order (drop_expired now c.entries)
          (Covers-filter (λ e. ltb now e.1.expires) order c.entries cov))
  ]

  -- In a cache with a positive `max` that holds at most that many entries, a store leaves at most
  -- `max` entries, whatever the clock says, for every order of the eviction that meets all the keys.
  pub store-size :
      (c : TtlCache V) (key : Text) (val : V) (ttl : ℤ) (now later : ℕ) (order : List Text)
      → 0 < c.max
      → Covers order (insert key (record { val = val; expires = now + pos_part ttl }) c.entries)
      → size c.entries ≤ c.max
      → size (store c key val ttl now later order).entries ≤ c.max
  unfolding store
  store-size c key val ttl now later order h cov le = elim (Bool-cases (is_positive ttl)) [
    | inl kept ↦ rw kept (evict-size _ later order h cov)
    | inr passed ↦ rw passed le
  ]

  -- Where a store needs no eviction, since the cache has no cap or room for the entry, `Get` returns
  -- the stored value of the key until the time-to-live is over and nothing from then on, and answers
  -- for every other key what it did before; with no positive time-to-live no answer changes.
  pub get-store :
      (c : TtlCache V) (key other : Text) (val : V) (ttl : ℤ) (now later at : ℕ) (order : List Text)
      → (c.max ≡ 0)
        ⊎ (size (insert key (record { val = val; expires = now + pos_part ttl }) c.entries) ≤ c.max)
      → get (store c key val ttl now later order) other at ≡ (
          if is_positive ttl
          then if text_eq key other
            then if ltb at (now + pos_part ttl) then some val else none
            else get c other at
          else get c other at)
  unfolding store get evict
  get-store c key other val ttl now later at order room = elim (Bool-cases (is_positive ttl)) [
    | inr passed ↦ rw passed
    | inl kept ↦
        let e : CacheEntry V = record { val = val; expires = now + pos_part ttl } in
        let fits : (leb c.max 0 || leb (size (insert key e c.entries)) c.max) ≡ true =
          ground arith in
        rw (kept, fits, lookup-insert key other e c.entries)
          (elim (Bool-cases (text_eq key other)) [ inl same ↦ rw same | inr differ ↦ rw differ ])
  ]
