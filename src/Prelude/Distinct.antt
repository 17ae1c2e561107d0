-- ===== src/Prelude/Distinct.antt =====
-- Association lists with one entry for each key, and what `filter` does to them.
use ip_unt1_com.Prelude.{
  ◌≤◌, ◌≡◌, refl, Bool, true, false, [], ◌∷◌, Option, none, some, if◌then◌else◌, arith, Eq, Map,
  size, filter, lookup, insert, contains, contains-eq_lookup, lookup-insert, lookup-delete, delete,
  size-delete_present,
}

-- Keeps what passes a test.
abbrev pub keep_if {ℓ} : {V : Type ℓ} → (V → Bool) → Option V → Option V
keep_if p none = none
keep_if p (some v) = if p v then some v else none

pub keep_if-eq_some {ℓ} :
    {V : Type ℓ} (p : V → Bool) (o : Option V) (v : V)
    → keep_if p o ≡ some v
    → (o ≡ some v) × (p v ≡ true)
keep_if-eq_some p none v h = absurd (ground (arith, h))
keep_if-eq_some p (some w) v h = ground (arith, h)

module _ {ℓ κ} {K : Type ℓ} {V : Type κ} ⦃e : Eq K⦄ where
  abbrev pub IsDistinct : Map K V → Type 0
  IsDistinct [] = Unit
  IsDistinct ((k, v) ∷ m) = (contains k m ≡ false) × IsDistinct m

  contains-insert :
      (k j : K) (v : V) (m : Map K V)
      → contains j (insert k v m) ≡ (if e.beq k j then true else contains j m)
  contains-insert k j v m =
      ground
        (arith, contains-eq_lookup j (insert k v m), contains-eq_lookup j m, lookup-insert k j v m)

  pub contains-delete :
      (k j : K) (m : Map K V)
      → contains j (delete k m) ≡ (if e.beq k j then false else contains j m)
  contains-delete k j m =
      ground (arith, contains-eq_lookup j (delete k m), contains-eq_lookup j m, lookup-delete k j m)

  pub insert-IsDistinct : (k : K) (v : V) (m : Map K V) → IsDistinct m → IsDistinct (insert k v m)
  unfolding insert contains
  insert-IsDistinct k v [] d = (refl, tt)
  insert-IsDistinct k v ((j, w) ∷ m) (new, d) =
      ground
        (arith, e.beq_iff j k, e.beq_iff k j, contains-insert k j v m, insert-IsDistinct k v m d)

  pub delete-IsDistinct : (k : K) (m : Map K V) → IsDistinct m → IsDistinct (delete k m)
  unfolding delete
  delete-IsDistinct k [] d = tt
  delete-IsDistinct k ((j, w) ∷ m) (new, d) =
      ground (arith, contains-delete k j m, delete-IsDistinct k m d)

  module _ (p : V → Bool) where
    contains-filter_missing :
        (k : K) (m : Map K V) → contains k m ≡ false → contains k (filter (λ e. p e.1) m) ≡ false
    unfolding contains
    contains-filter_missing k [] h = refl
    contains-filter_missing k ((j, v) ∷ m) h = ground (arith, contains-filter_missing k m)

    pub filter-IsDistinct : (m : Map K V) → IsDistinct m → IsDistinct (filter (λ e. p e.1) m)
    filter-IsDistinct [] d = tt
    filter-IsDistinct ((k, v) ∷ m) (new, d) =
        ground (arith, contains-filter_missing k m new, filter-IsDistinct m d)

    lookup_missing : (k : K) (m : Map K V) → contains k m ≡ false → lookup k m ≡ none
    lookup_missing k m h = ground (arith, contains-eq_lookup k m)

    pub lookup-filter :
        (k : K) (m : Map K V)
        → IsDistinct m
        → lookup k (filter (λ e. p e.1) m) ≡ keep_if p (lookup k m)
    unfolding lookup
    lookup-filter k [] d = refl
    lookup-filter k ((j, v) ∷ m) (new, d) = ground (
      arith,
      e.beq_iff j k,
      lookup-filter k m d,
      lookup_missing k (filter (λ e. p e.1) m),
      contains-filter_missing k m,
    )

-- A map has no more entries than one that has all of its keys.
pub size-le-size {ℓ κ μ} :
    {K : Type ℓ} {V : Type κ} {W : Type μ} ⦃e : Eq K⦄ (m : Map K V) (n : Map K W)
    → IsDistinct m
    → ((k : K) → contains k m ≡ true → contains k n ≡ true)
    → size m ≤ size n
unfolding contains
size-le-size [] n d sub = omega arith
size-le-size ⦃e⦄ ((k, v) ∷ m) n (new, d) sub =
    let there : contains k n ≡ true = sub k (ground (arith, e.beq_iff k k)) in
    let rest =
      size-le-size m (delete k n) d
        (λ j h. ground (arith, contains-delete k j n, sub j, e.beq_iff k j, h, new)) in
    omega (arith, rest, size-delete_present k n there)
