-- ===== src/Ua.antt =====
-- ua.go: the bounded set of user agents that were logged lately. The clock and the order in which
-- Go ranges over the map are arguments.
pub mod Seen
pub mod Regexp
pub mod Patterns
pub mod Detect
pub mod Engines
use ip_unt1_com.Prelude.{
  ℕ, ◌+◌, Bool, true, false, not, ◌&&◌, ◌||◌, List, [], ◌∷◌, Option, none, some, Text,
  if◌then◌else◌, is_empty, ltb, leb, Map, size, lookup, insert, delete, text_instance,
}

pub record UaSeenSet : Type 0 where
  pub items : Map Text ℕ
  pub cap : ℕ
  pub ttl : ℕ

unfoldable pub new_ua_seen_set : ℕ → ℕ → UaSeenSet
new_ua_seen_set cap ttl = record { items = []; cap = cap; ttl = ttl }

-- The state of the loop of `firstSeen`: what is left, and the oldest entry that was met.
pub record Sweep : Type 0 where
  pub items : Map Text ℕ
  pub oldest : Text
  pub oldest_t : ℕ

-- One turn of the loop.
unfoldable pub sweep_step : ℕ → ℕ → Sweep → Text → Sweep
sweep_step ttl now s k = elim (lookup k s.items) [
  | none ↦ s
  | some t ↦
      if leb (t + ttl) now
      then record s { items = delete k s.items }
      else if is_empty s.oldest || ltb t s.oldest_t
      then record { items = s.items; oldest = k; oldest_t = t }
      else s
]

unfoldable pub sweep : ℕ → ℕ → Sweep → List Text → Sweep
sweep ttl now s [] = s
sweep ttl now s (k ∷ ks) = sweep ttl now (sweep_step ttl now s k) ks

-- The eviction: the expired entries, and the oldest of the others if that is not enough.
unfoldable pub evict_seen : ℕ → ℕ → ℕ → Map Text ℕ → List Text → Map Text ℕ
evict_seen cap ttl now items order =
    let r = sweep ttl now (record { items = items; oldest = []; oldest_t = 0 }) order in
    if leb (size items) cap
    then items
    else if ltb cap (size r.items) && not (is_empty r.oldest)
    then delete r.oldest r.items
    else r.items

-- An entry that has not expired.
abbrev pub is_recent : ℕ → ℕ → Option ℕ → Bool
is_recent ttl now none = false
is_recent ttl now (some t) = ltb now (t + ttl)

-- `firstSeen`.
unfoldable pub first_seen : UaSeenSet → Text → ℕ → List Text → UaSeenSet × Bool
first_seen s key now order =
    let items = insert key now s.items in
    if is_recent s.ttl now (lookup key s.items)
    then (record s { items = items }, false)
    else (record s { items = evict_seen s.cap s.ttl now items order }, true)
