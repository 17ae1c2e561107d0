-- ===== src/Cache.antt =====
-- The bounded cache of cache.go. The clock and the order in which Go ranges over a map are
-- arguments. `Do` is cut at its locks: entering, storing, and closing the channel; the callers
-- run in any interleaving (Cache/Flight).
pub mod Store
pub mod Flight
pub mod Values
pub mod Origins
pub mod Runs
pub mod Drains
pub mod Alone
pub mod Single
use ip_unt1_com.Prelude.{
  ℕ, zero, suc, ◌+◌, Bool, true, false, not, ◌||◌, List, [], ◌∷◌, Option, none, some, Text, leb,
  ltb, ◌==◌, if◌then◌else◌, Map, size, lookup, insert, delete, filter, text_instance,
}
use ip_unt1_com.Prelude.Int.{ℤ, pos, negsuc, pos_part}

pub record CacheEntry {ℓ} (V : Type ℓ) : Type ℓ where
  pub val : V
  pub expires : ℕ

-- The calls in flight map a key to the caller that computes its value.
pub record TtlCache {ℓ} (V : Type ℓ) : Type ℓ where
  pub entries : Map Text (CacheEntry V)
  pub inflight : Map Text ℕ
  pub max : ℕ

-- Where a caller of `Do` stands.
pub data Pc {ℓ} (V : Type ℓ) : Type ℓ where
  ready : Pc V
  computing : Pc V
  waiting : ℕ → Pc V
  closing : V → Pc V
  returned : V → Pc V

-- The cache, and for each caller where it stands and its `call`: the value and the channel.
pub record System {ℓ} (V : Type ℓ) : Type ℓ where
  pub cache : TtlCache V
  pub pc : ℕ → Pc V
  pub call_val : ℕ → Option V
  pub done : ℕ → Bool

abbrev pub update {ℓ} : {A : Type ℓ} → (ℕ → A) → ℕ → A → ℕ → A
update f i a j = if i == j then a else f j

-- `ttl > 0`.
abbrev pub is_positive : ℤ → Bool
is_positive (pos n) = ltb 0 n
is_positive (negsuc n) = false

module _ {ℓ} {V : Type ℓ} where
  unfoldable pub new_ttl_cache : ℕ → TtlCache V
  new_ttl_cache max = record { entries = []; inflight = []; max = max }

  -- The entry of a key, if it has not expired.
  abbrev pub live : Option (CacheEntry V) → ℕ → Option V
  live none now = none
  live (some e) now = if ltb now e.expires then some e.val else none

  unfoldable pub get : TtlCache V → Text → ℕ → Option V
  get c key now = live (lookup key c.entries) now

  abbrev pub drop_expired : ℕ → Map Text (CacheEntry V) → Map Text (CacheEntry V)
  drop_expired now m = filter (λ e. ltb now e.1.expires) m

  -- The second loop of `evictLocked`.
  unfoldable pub drop_until : ℕ → List Text → Map Text (CacheEntry V) → Map Text (CacheEntry V)
  drop_until max [] m = m
  drop_until max (k ∷ ks) m =
      let rest = drop_until max ks (delete k m) in if leb (size m) max then m else rest

  -- `evictLocked`.
  unfoldable pub evict : TtlCache V → ℕ → List Text → TtlCache V
  evict c now order =
      if leb c.max 0 || leb (size c.entries) c.max
      then c
      else record c { entries = drop_until c.max order (drop_expired now c.entries) }

  -- What `Do` stores of a computed value; `later` is the clock that `evictLocked` reads.
  unfoldable pub store : TtlCache V → Text → V → ℤ → ℕ → ℕ → List Text → TtlCache V
  store c key val ttl now later order =
      if is_positive ttl
      then evict
          (record c {
            entries = insert key (record { val = val; expires = now + pos_part ttl }) c.entries;
          })
          later order
      else c

  -- `Do` up to its second lock: a hit, a call in flight to wait for, or a call of its own.
  unfoldable pub enter : System V → ℕ → Text → ℕ → System V
  enter s i key now = elim (get s.cache key now) [
    | some v ↦ record s { pc = update s.pc i (returned v) }
    | none ↦ elim (lookup key s.cache.inflight) [
      | some owner ↦ record s { pc = update s.pc i (waiting owner) }
      | none ↦ record s {
        cache = record (s.cache) { inflight = insert key i s.cache.inflight };
        pc = update s.pc i computing;
      }
    ]
  ]

  -- The second lock of `Do`, after `fn` has returned.
  unfoldable pub finish : System V → ℕ → Text → V → ℤ → ℕ → ℕ → List Text → System V
  finish s i key val ttl now later order =
      let c = store s.cache key val ttl now later order in
      record s {
        cache = record c { inflight = delete key c.inflight };
        pc = update s.pc i (closing val);
        call_val = update s.call_val i (some val);
      }

  -- `close(ch.done)`.
  unfoldable pub close : System V → ℕ → V → System V
  close s i val = record s { pc = update s.pc i (returned val); done = update s.done i true }

  -- `<-ch.done; return ch.val`.
  unfoldable pub wake : System V → ℕ → V → System V
  wake s i val = record s { pc = update s.pc i (returned val) }

  unfoldable pub len : TtlCache V → ℕ
  len c = size c.entries
