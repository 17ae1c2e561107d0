-- ===== src/Prelude/Ranging.antt =====
-- The order in which Go ranges over a map: any list that meets every key.
use ip_unt1_com.Prelude.{
  ◌≡◌, refl, Bool, true, List, [], ◌∷◌, Text, text_eq, text_eq_iff, text_instance, arith, any, Map,
  size, delete, contains, filter,
}
use ip_unt1_com.Prelude.Distinct.{contains-delete}

abbrev pub elem : Text → List Text → Bool
elem k ks = any (λ j. text_eq j k) ks

-- A range over the map meets every key.
abbrev pub Covers {ℓ} : {V : Type ℓ} → List Text → Map Text V → Type 0
Covers order m = (k : Text) → contains k m ≡ true → elem k order ≡ true

module _ {ℓ} {V : Type ℓ} where
  pub Covers-delete :
      (k : Text) (ks : List Text) (m : Map Text V) → Covers (k ∷ ks) m → Covers ks (delete k m)
  Covers-delete k ks m c j h = ground (arith, contains-delete k j m, c j)

  pub Covers-nil : (m : Map Text V) → Covers [] m → size m ≡ 0
  unfolding contains
  Covers-nil [] c = refl
  Covers-nil ((k, v) ∷ m) c = ground (arith, c k, text_eq_iff k k)

  contains-filter :
      (p : Text × V → Bool) (k : Text) (m : Map Text V)
      → contains k (filter p m) ≡ true
      → contains k m ≡ true
  unfolding contains
  contains-filter p k [] h = h
  contains-filter p k ((j, v) ∷ m) h = ground (arith, contains-filter p k m)

  pub Covers-filter :
      (p : Text × V → Bool) (order : List Text) (m : Map Text V)
      → Covers order m
      → Covers order (filter p m)
  Covers-filter p order m c k h = c k (contains-filter p k m h)
