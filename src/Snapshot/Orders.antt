-- ===== src/Snapshot/Orders.antt =====
-- vpn.go: results of different feeds in another order.
use ip_unt1_com.Prelude.{
  ◌≡◌, refl, Bool, false, List, [], ◌∷◌, ◌++◌, Text, text_eq, text_eq_iff, any, ◌||◌, map, arith,
  ◌∙◌, sym, ap,
}
use ip_unt1_com.Snapshot.{FetchResult}
use ip_unt1_com.Snapshot.Same.{Reordered, all_in, first_in, swapped, by_way_of}

abbrev has_name : Text → List FetchResult → Bool
has_name k rs = any (λ r. text_eq r.name k) rs

abbrev pub AreDistinct : List FetchResult → Type 0
AreDistinct [] = Unit
AreDistinct (r ∷ rs) = (has_name r.name rs ≡ false) × AreDistinct rs

Reordered-has_name :
    (k : Text) {rs ss : List FetchResult} → Reordered rs ss → has_name k rs ≡ has_name k ss
Reordered-has_name k all_in = refl
Reordered-has_name k (first_in r time p) = ground (arith, Reordered-has_name k p)
Reordered-has_name k (swapped r q rs h) = ground arith
Reordered-has_name k (by_way_of p q) = Reordered-has_name k p ∙ Reordered-has_name k q

pub Reordered-AreDistinct :
    {rs ss : List FetchResult} → Reordered rs ss → AreDistinct rs → AreDistinct ss
Reordered-AreDistinct all_in d = tt
Reordered-AreDistinct (first_in r time p) (new, d) =
    (sym (Reordered-has_name r.name p) ∙ new, Reordered-AreDistinct p d)
Reordered-AreDistinct (swapped r q rs h) (new, (new', d)) =
    ground (arith, text_eq_iff r.name q.name, text_eq_iff q.name r.name)
Reordered-AreDistinct (by_way_of p q) d = Reordered-AreDistinct q (Reordered-AreDistinct p d)

pub Reordered-refl : (rs : List FetchResult) → Reordered rs rs
Reordered-refl [] = all_in
Reordered-refl (r ∷ rs) = first_in r r.now (Reordered-refl rs)

pub Reordered-append :
    (xs : List FetchResult) {rs ss : List FetchResult}
    → Reordered rs ss
    → Reordered (xs ++ rs) (xs ++ ss)
Reordered-append [] p = p
Reordered-append (x ∷ xs) p = first_in x x.now (Reordered-append xs p)

-- The result of any goroutine can come first.
pub Reordered_first :
    (before after : List FetchResult) (r : FetchResult)
    → AreDistinct (before ++ r ∷ after)
    → Reordered (before ++ r ∷ after) (r ∷ before ++ after)
Reordered_first [] after r d = Reordered-refl (r ∷ after)
Reordered_first (b ∷ before) after r (new, d) =
    let front = Reordered_first before after r d in
    let other : text_eq b.name r.name ≡ false = ground (
      arith,
      Reordered-has_name b.name front,
      text_eq_iff b.name r.name,
      text_eq_iff r.name b.name,
    ) in
    by_way_of (first_in b b.now front) (swapped b r (before ++ after) other)

pub AreDistinct-rest : (xs ys : List FetchResult) → AreDistinct (xs ++ ys) → AreDistinct ys
AreDistinct-rest [] ys d = d
AreDistinct-rest (x ∷ xs) ys (new, d) = AreDistinct-rest xs ys d

has_name-names :
    (k : Text) (rs : List FetchResult)
    → has_name k rs ≡ any (λ n. text_eq n k) (map (λ r. r.name) rs)
has_name-names k [] = refl
has_name-names k (r ∷ rs) = ap (λ b. text_eq r.name k || b) (has_name-names k rs)

-- No name stands twice in a list.
abbrev pub HasNoTwo : List Text → Type 0
HasNoTwo [] = Unit
HasNoTwo (n ∷ ns) = (any (λ m. text_eq m n) ns ≡ false) × HasNoTwo ns

pub AreDistinct-names : (rs : List FetchResult) → HasNoTwo (map (λ r. r.name) rs) → AreDistinct rs
AreDistinct-names [] h = tt
AreDistinct-names (r ∷ rs) (new, h) = (has_name-names r.name rs ∙ new, AreDistinct-names rs h)
