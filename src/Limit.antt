-- ===== src/Limit.antt =====
-- The token buckets of ratelimit.go. Tokens are counted in units of 10^-9 token, the rate in
-- tokens per second and time in nanoseconds, so that for a whole rate the refill is exact; the
-- clock is an argument. The order in which Go ranges over the map is an argument as well.
pub mod Budget
pub mod Capacity
pub mod Key
pub mod Callers
pub mod Ideal
pub mod Refines
pub mod Answers
use ip_unt1_com.Prelude.{
  ℕ, zero, suc, ◌+◌, ◌-◌, ◌*◌, ◌/◌, ◌%◌, Bool, true, false, not, List, [], ◌∷◌, Option, none, some,
  Text, bytes, leb, ltb, if◌then◌else◌, Map, size, lookup, insert, delete, filter, text_instance,
}
use ip_unt1_com.Prelude.Int.{ℤ, pos, negsuc, pos_part, neg_part, sub_ℕ, ◌+ℤ◌, ◌-ℤ◌, ◌*ℤ◌, ltb_ℤ}
use ip_unt1_com.Net.{Addr, v4, v6, is_valid, is_4, canonical_ip, addr_prefix, masked}
use ip_unt1_com.Net.Show.{show_addr, show_prefix}

pub record Bucket : Type 0 where
  pub tokens : ℤ
  pub last : ℕ

pub record RateLimiter : Type 0 where
  pub buckets : Map Text Bucket
  pub rate : ℕ
  pub burst : ℕ
  pub max : ℕ

-- Nanoseconds in a second, and units in a token.
abbrev pub second : ℕ
second = 1_000_000_000

unfoldable pub new_rate_limiter : ℕ → ℕ → ℕ → RateLimiter
new_rate_limiter rate burst max = record { buckets = []; rate = rate; burst = burst; max = max }

-- What `Allow` stores for a key that it has no bucket of.
abbrev pub fresh_bucket : ℕ → ℕ → Bucket
fresh_bucket burst now = record { tokens = sub_ℕ (burst * second) second; last = now }

-- The part of `Allow` on a bucket that is there: refill, cap, and take a token if there is one.
unfoldable pub take_token : ℕ → ℕ → Bucket → ℕ → Bucket × Bool
take_token rate burst b now =
    let filled = b.tokens +ℤ sub_ℕ now b.last *ℤ rate in
    let capped = if ltb_ℤ (pos (burst * second)) filled then pos (burst * second) else filled in
    if ltb_ℤ capped (pos second)
    then (record { tokens = capped; last = now }, false)
    else (record { tokens = capped -ℤ pos second; last = now }, true)

-- Twice the time in which an empty bucket fills up.
abbrev pub idle_time : RateLimiter → ℕ
idle_time l = l.burst * second / l.rate * 2

abbrev pub is_idle : RateLimiter → ℕ → Bucket → Bool
is_idle l now b = ltb (b.last + idle_time l) now

abbrev pub drop_idle : RateLimiter → ℕ → Map Text Bucket → Map Text Bucket
drop_idle l now m = filter (λ e. not (is_idle l now e.1)) m

-- The second loop of `evictLocked`, over the keys in the order of the range.
unfoldable pub drop_some : ℕ → List Text → Map Text Bucket → Map Text Bucket
drop_some max [] m = m
drop_some max (k ∷ ks) m =
    let rest = drop_some max ks (delete k m) in if ltb (size m) max then m else rest

-- `evictLocked`.
unfoldable pub evict_locked : RateLimiter → ℕ → List Text → RateLimiter
evict_locked l now order = record l { buckets = drop_some l.max order (drop_idle l now l.buckets) }

-- `Allow`.
unfoldable pub allow : RateLimiter → Text → ℕ → List Text → RateLimiter × Bool
allow l key now order = elim (lookup key l.buckets) [
  | none ↦
      let l' = if leb l.max (size l.buckets) then evict_locked l now order else l in
      (record l' { buckets = insert key (fresh_bucket l.burst now) l'.buckets }, true)
  | some b ↦
      let (b', ok) = take_token l.rate l.burst b now in
      (record l { buckets = insert key b' l.buckets }, ok)
]

-- `limiterKey`, after its first line.
abbrev pub key_of : Addr → Text
key_of ip =
    if not (is_valid ip)
    then bytes "unknown"
    else if is_4 ip
    then show_addr ip
    else elim (addr_prefix ip 64) [ some p ↦ show_prefix (masked p) | none ↦ show_addr ip ]

-- `limiterKey`.
unfoldable pub limiter_key : Addr → Text
limiter_key addr = key_of (canonical_ip addr)
