-- ===== src/Service/Caps.antt =====
-- main.go: the limiter and the sets of user agents under the caps that `main` gives them.
use ip_unt1_com.Prelude.{
  ℕ, ◌≤◌, ◌≡◌, refl, ◌⊎◌, inl, false, List, [], ◌∷◌, Option, none, some, Text, is_empty, lookup,
  insert, size, text_instance, text_eq_iff, lookup-insert, lookup-delete, arith, ◌∙◌, if◌then◌else◌,
}
use ip_unt1_com.Prelude.Ranging.{Covers}
use ip_unt1_com.Limit.{RateLimiter, allow, evict_locked, limiter_key}
use ip_unt1_com.Limit.Capacity.{allow-size}
use ip_unt1_com.Ua.{UaSeenSet, first_seen, evict_seen, sweep, sweep_step, Sweep}
use ip_unt1_com.Ua.Seen.{first_seen-size}
use ip_unt1_com.View.{target_ip, target_named, target_allowed}
use ip_unt1_com.Strings.{trim_space}
use ip_unt1_com.Net.{Addr, canonical_ip}

-- A limiter within the cap of `main`, and a set of user agents within its own.
pub record IsLimited (l : RateLimiter) : Type 0 where
  pub cap : l.max ≡ 20_000
  pub fits : size l.buckets ≤ 20_000

pub record IsFew (u : UaSeenSet) : Type 0 where
  pub cap : u.cap ≡ 1024
  pub unnamed : lookup [] u.items ≡ none
  pub fits : size u.items ≤ 1024

max-allow :
    (l : RateLimiter) (key : Text) (now : ℕ) (order : List Text)
    → (allow l key now order).0.max ≡ l.max
unfolding allow evict_locked
max-allow l key now order = ground arith

pub allow-IsLimited :
    (l : RateLimiter) (key : Text) (now : ℕ) (order : List Text)
    → Covers order l.buckets
    → IsLimited l
    → IsLimited (allow l key now order).0
allow-IsLimited l key now order c h = record {
  cap = max-allow l key now order ∙ h.cap;
  fits = omega (
    arith,
    h.cap,
    h.fits,
    allow-size l key now order (omega (arith, h.cap)) c (omega (arith, h.cap, h.fits)),
  );
}

target_allowed-limiter :
    (l : RateLimiter) (visitor : Addr) (now : ℕ) (order : List Text) (a : Addr)
    → let out = (target_allowed l visitor now order a).0 in
      (out ≡ l) ⊎ (out ≡ (allow l (limiter_key visitor) now order).0)
unfolding target_allowed
target_allowed-limiter l visitor now order a = ground arith

target_named-limiter :
    (l : RateLimiter) (visitor : Addr) (now : ℕ) (order : List Text) (s : Text) (o : Option Addr)
    → let out = (target_named l visitor now order s o).0 in
      (out ≡ l) ⊎ (out ≡ (allow l (limiter_key visitor) now order).0)
unfolding target_named
target_named-limiter l visitor now order s none = inl refl
target_named-limiter l visitor now order s (some a) =
    ground (arith, target_allowed-limiter l visitor now order (canonical_ip a))

-- A request leaves the limiter alone or calls `Allow` once.
pub target_ip-limiter :
    (parse_addr : Text → Option Addr) (l : RateLimiter) (visitor : Addr) (raw : Text) (now : ℕ)
    (order : List Text) (in_path in_query : Text)
    → let out = (target_ip parse_addr l visitor raw now order in_path in_query).0 in
      (out ≡ l) ⊎ (out ≡ (allow l (limiter_key visitor) now order).0)
unfolding target_ip
target_ip-limiter parse_addr l visitor raw now order in_path in_query =
    let path = trim_space in_path in
    let override = if is_empty path then trim_space in_query else path in
    ground (arith, target_named-limiter l visitor now order override (parse_addr override))

-- No entry with the empty key comes in.
unnamed-sweep :
    (ttl now : ℕ) (ks : List Text) (s : Sweep)
    → lookup [] s.items ≡ none
    → lookup [] (sweep ttl now s ks).items ≡ none
unfolding sweep sweep_step
unnamed-sweep ttl now [] s h = h
unnamed-sweep ttl now (k ∷ ks) s h =
    unnamed-sweep ttl now ks (sweep_step ttl now s k)
      (ground (arith, h, lookup-delete k [] s.items))

unnamed-first_seen :
    (u : UaSeenSet) (key : Text) (now : ℕ) (order : List Text)
    → is_empty key ≡ false
    → lookup [] u.items ≡ none
    → (lookup [] (first_seen u key now order).0.items ≡ none)
      × ((first_seen u key now order).0.cap ≡ u.cap)
unfolding first_seen evict_seen
unnamed-first_seen u key now order e h =
    let items = insert key now u.items in
    let first : lookup [] items ≡ none =
      ground (arith, h, lookup-insert key [] now u.items, text_eq_iff key []) in
    let r = sweep u.ttl now (record { items = items; oldest = []; oldest_t = 0 }) order in
    let swept =
      unnamed-sweep u.ttl now order (record { items = items; oldest = []; oldest_t = 0 }) first in
    ground (arith, first, swept, lookup-delete r.oldest [] r.items)

pub first_seen-IsFew :
    (u : UaSeenSet) (key : Text) (now : ℕ) (order : List Text)
    → is_empty key ≡ false
    → Covers order (insert key now u.items)
    → IsFew u
    → IsFew (first_seen u key now order).0
first_seen-IsFew u key now order e c h =
    let kept = unnamed-first_seen u key now order e h.unnamed in
    let le : size u.items ≤ u.cap = omega (arith, h.cap, h.fits) in
    record {
      cap = kept.1 ∙ h.cap;
      unnamed = kept.0;
      fits = omega (arith, h.cap, first_seen-size u key now order e h.unnamed c le);
    }
