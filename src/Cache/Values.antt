-- ===== src/Cache/Values.antt =====
-- A property of all entries, kept by what the cache does to them.
use ip_unt1_com.Prelude.{
  ℕ, ◌+◌, ◌≡◌, refl, inl, inr, Bool, true, false, ◌||◌, List, [], ◌∷◌, Option, none, some, Text,
  text_eq, text_eq_iff, text_instance, leb, ltb, size, Bool-cases, arith, Map, lookup, insert,
  delete, filter, ap, subst, All,
}
use ip_unt1_com.Prelude.Int.{ℤ, pos_part}
use ip_unt1_com.Cache.{
  CacheEntry, TtlCache, live, store, evict, drop_expired, drop_until, is_positive,
}

-- A property of every entry of a map, kept by what removes entries.
module _ {ℓ κ} {V : Type ℓ} (P : Text × V → Type κ) where
  All-insert : (k : Text) (v : V) (m : Map Text V) → P (k, v) → All P m → All P (insert k v m)
  unfolding insert
  All-insert k v [] p h = (p, tt)
  All-insert k v ((j, w) ∷ m) p h = elim (Bool-cases (text_eq j k)) [
    | inl same ↦ rw same (p, h.1)
    | inr other ↦ rw other (h.0, All-insert k v m p h.1)
  ]

  All-delete : (k : Text) (m : Map Text V) → All P m → All P (delete k m)
  unfolding delete
  All-delete k [] h = tt
  All-delete k ((j, w) ∷ m) h = elim (Bool-cases (text_eq j k)) [
    | inl same ↦ rw same (All-delete k m h.1)
    | inr other ↦ rw other (h.0, All-delete k m h.1)
  ]

  All-filter : (p : Text × V → Bool) (m : Map Text V) → All P m → All P (filter p m)
  All-filter p [] h = tt
  All-filter p (e ∷ m) h =
      let rest = All-filter p m h.1 in
      elim (p e) as (λ b. All P (elim b [ true ↦ e ∷ filter p m | false ↦ filter p m ])) [
        | true ↦ (h.0, rest)
        | false ↦ rest
      ]

  pub All-lookup : (k : Text) (v : V) (m : Map Text V) → All P m → lookup k m ≡ some v → P (k, v)
  unfolding lookup
  All-lookup k v [] h e = absurd (ground arith)
  All-lookup k v ((j, w) ∷ m) h e = elim (Bool-cases (text_eq j k)) [
    | inl same ↦
        let key : j ≡ k = ground (arith, text_eq_iff j k) in
        let val : w ≡ v = ground arith in
        subst P (ap (λ (x : V). (k, x)) val) (subst P (ap (λ x. (x, w)) key) h.0)
    | inr other ↦ All-lookup k v m h.1 (ground arith)
  ]

pub All-mono {ℓ κ} :
    {A : Type ℓ} (P Q : A → Type κ) (xs : List A) → ((x : A) → P x → Q x) → All P xs → All Q xs
All-mono P Q [] f h = tt
All-mono P Q (x ∷ xs) f h = (f x h.0, All-mono P Q xs f h.1)

module _ {ℓ} {V : Type ℓ} where
  All-drop_until {κ} :
      (P : Text × CacheEntry V → Type κ) (max : ℕ) (order : List Text) (m : Map Text (CacheEntry V))
      → All P m
      → All P (drop_until max order m)
  unfolding drop_until
  All-drop_until P max [] m h = h
  All-drop_until P max (k ∷ ks) m h = elim (Bool-cases (leb (size m) max)) [
    | inl fits ↦ rw fits h
    | inr full ↦ rw full (All-drop_until P max ks (delete k m) (All-delete P k m h))
  ]

  All-evict {κ} :
      (P : Text × CacheEntry V → Type κ) (c : TtlCache V) (now : ℕ) (order : List Text)
      → All P c.entries
      → All P (evict c now order).entries
  unfolding evict
  All-evict P c now order h = elim (Bool-cases (leb c.max 0 || leb (size c.entries) c.max)) [
    | inl fits ↦ rw fits h
    | inr full ↦ rw full (
        All-drop_until P c.max order (drop_expired now c.entries)
          (All-filter P (λ e. ltb now e.1.expires) c.entries h))
  ]

  pub All-store {κ} :
      (P : Text × CacheEntry V → Type κ) (c : TtlCache V) (key : Text) (val : V) (ttl : ℤ)
      (now later : ℕ) (order : List Text)
      → P (key, record { val = val; expires = now + pos_part ttl })
      → All P c.entries
      → All P (store c key val ttl now later order).entries
  unfolding store
  All-store P c key val ttl now later order p h = elim (Bool-cases (is_positive ttl)) [
    | inl kept ↦ rw kept (All-evict P _ later order (All-insert P key _ c.entries p h))
    | inr left ↦ rw left h
  ]

  -- The entry behind a hit.
  pub live-some :
      (o : Option (CacheEntry V)) (now : ℕ) (v : V)
      → live o now ≡ some v
      → (e : CacheEntry V) × (o ≡ some e) × (e.val ≡ v)
  live-some none now v h = absurd (ground arith)
  live-some (some e) now v h = (e, refl, ground arith)
