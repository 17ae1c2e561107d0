-- ===== src/Limit/Capacity.antt =====
-- ratelimit.go: the size of the map of buckets, and what a call does to the buckets of others.
use ip_unt1_com.Prelude.{
  ℕ, ◌≤◌, ◌<◌, ◌≡◌, ◌≢◌, ◌⊎◌, inl, inr, Bool, true, false, not, List, [], ◌∷◌, none, some, Text,
  text_eq, text_eq_iff, text_instance, leb, ltb, Bool-cases, Option-cases, arith, Map, size, lookup,
  insert, delete, contains, contains-eq_lookup, lookup-insert, size-insert-le, size-insert_present,
  ◌∙◌,
}
use ip_unt1_com.Prelude.Ranging.{Covers, Covers-delete, Covers-nil, Covers-filter}
use ip_unt1_com.Limit.{
  Bucket, RateLimiter, drop_some, drop_idle, evict_locked, allow, take_token, is_idle, fresh_bucket,
}

drop_some-size :
    (max : ℕ) (order : List Text) (m : Map Text Bucket)
    → 0 < max
    → Covers order m
    → size (drop_some max order m) < max
unfolding drop_some
drop_some-size max [] m h c = omega (arith, Covers-nil m c)
drop_some-size max (k ∷ ks) m h c =
    let rest = drop_some-size max ks (delete k m) h (Covers-delete k ks m c) in
    elim (Bool-cases (ltb (size m) max)) [
      | inl fits ↦ rw fits (ground arith)
      | inr full ↦ rw full rest
    ]

-- The three ways through `Allow`.
module _ (l : RateLimiter) (key : Text) (now : ℕ) (order : List Text) where
  abbrev pub with_fresh : Map Text Bucket → RateLimiter × Bool
  with_fresh m = (record l { buckets = insert key (fresh_bucket l.burst now) m }, true)

  pub allow-found :
      (b : Bucket)
      → lookup key l.buckets ≡ some b
      → allow l key now order ≡ (
        record l { buckets = insert key (take_token l.rate l.burst b now).0 l.buckets },
        (take_token l.rate l.burst b now).1,
      )
  unfolding allow
  allow-found b h = rw (h, allow)

  pub allow-room :
      lookup key l.buckets ≡ none
      → leb l.max (size l.buckets) ≡ false
      → allow l key now order ≡ with_fresh l.buckets
  unfolding allow
  allow-room h e = rw (h, allow) (rw e)

  pub allow-full :
      lookup key l.buckets ≡ none
      → leb l.max (size l.buckets) ≡ true
      → allow l key now order ≡ with_fresh (drop_some l.max order (drop_idle l now l.buckets))
  unfolding allow evict_locked
  allow-full h e = rw (h, allow) (rw e)

-- `Allow` keeps the number of buckets within the cap, in whatever order the range of the eviction
-- meets the keys.
pub allow-size :
    (l : RateLimiter) (key : Text) (now : ℕ) (order : List Text)
    → 0 < l.max
    → Covers order l.buckets
    → size l.buckets ≤ l.max
    → size (allow l key now order).0.buckets ≤ l.max
allow-size l key now order pos c h = elim (Option-cases (lookup key l.buckets)) [
  | inr (b, found) ↦
      rw (allow-found l key now order b found)
        (rw (size-insert_present key (take_token l.rate l.burst b now).0 b l.buckets found) h)
  | inl missing ↦ elim (Bool-cases (leb l.max (size l.buckets))) [
    | inr room ↦
        rw (allow-room l key now order missing room)
          (ground (arith, size-insert-le key (fresh_bucket l.burst now) l.buckets))
    | inl full ↦
        let kept = drop_idle l now l.buckets in
        let covered = Covers-filter (λ e. not (is_idle l now e.1)) order l.buckets c in
        rw (allow-full l key now order missing full) (
          omega (
            arith,
            drop_some-size l.max order kept pos covered,
            size-insert-le key (fresh_bucket l.burst now) (drop_some l.max order kept),
          ))
  ]
]

-- A call leaves the bucket of every other key as it is, unless it has to make room.
pub allow-lookup_other :
    (l : RateLimiter) (key other : Text) (now : ℕ) (order : List Text)
    → key ≢ other
    → (size l.buckets < l.max) ⊎ (contains key l.buckets ≡ true)
    → lookup other (allow l key now order).0.buckets ≡ lookup other l.buckets
allow-lookup_other l key other now order ne room =
    let differ : text_eq key other ≡ false = ground (arith, text_eq_iff key other) in
    elim (Option-cases (lookup key l.buckets)) [
      | inr (b, found) ↦
          rw (allow-found l key now order b found)
            (lookup-insert key other (take_token l.rate l.burst b now).0 l.buckets ∙ rw differ)
      | inl missing ↦
          let absent : contains key l.buckets ≡ false =
            contains-eq_lookup key l.buckets ∙ rw missing in
          let below : leb l.max (size l.buckets) ≡ false = ground arith in
          rw (allow-room l key now order missing below)
            (lookup-insert key other (fresh_bucket l.burst now) l.buckets ∙ rw differ)
    ]
