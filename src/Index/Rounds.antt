-- ===== src/Index/Rounds.antt =====
-- cidrindex.go: how many rounds the binary search of `Lookup` takes.
use ip_unt1_com.Prelude.{
  ℕ, zero, suc, ◌+◌, ◌/◌, ◌^◌, ◌<◌, ◌≡◌, refl, Bool, false, List, Option, none, some, ltb,
  if◌then◌else◌, length, Bool-cases, inl, inr, arith, ltb→lt, is_empty,
}
use ip_unt1_com.Index.{IpRange, search_loop, starts_after, answer_at, lookup_ranges}

-- A search that is over returns its lower end, whatever fuel is left.
search_loop-done : (k : ℕ) (f : ℕ → Bool) (i j : ℕ) → ltb i j ≡ false → search_loop k f i j ≡ some i
unfolding search_loop
search_loop-done zero f i j e = rw e refl
search_loop-done (suc k) f i j e = rw e refl

halve : (k i j : ℕ) → j < i + 2 ^ suc k → i < j → (i + j) / 2 < i + 2 ^ k
halve k i j h lt = omega arith

halve_up : (k i j : ℕ) → j < i + 2 ^ suc k → i < j → j < (i + j) / 2 + 1 + 2 ^ k
halve_up k i j h lt = omega arith

-- Two searches that end, with the same index.
abbrev Agree : Option ℕ → Option ℕ → Type 0
Agree a b = (i : ℕ) × (a ≡ some i) × (b ≡ some i)

-- A search in an interval of fewer than `2 ^ k` indices is over after at most `k` rounds, whatever
-- the test answers: any fuel that is enough by this count gives the same index.
search_loop-rounds :
    (k l : ℕ) (f : ℕ → Bool) (i j : ℕ)
    → j < i + 2 ^ k
    → j < i + 2 ^ l
    → Agree (search_loop k f i j) (search_loop l f i j)
unfolding search_loop
search_loop-rounds zero l f i j h h' =
    (i, search_loop-done zero f i j (ground arith), search_loop-done l f i j (ground arith))
search_loop-rounds (suc k) zero f i j h h' =
    (i, search_loop-done (suc k) f i j (ground arith), search_loop-done zero f i j (ground arith))
search_loop-rounds (suc k) (suc l) f i j h h' = elim (Bool-cases (ltb i j)) [
  | inr done ↦ (i, rw done refl, rw done refl)
  | inl more ↦
      let lt = ltb→lt i j more in
      elim (Bool-cases (f ((i + j) / 2))) [
        | inl hit ↦
            let left =
              search_loop-rounds k l f i ((i + j) / 2) (halve k i j h lt) (halve l i j h' lt) in
            rw (more, hit) left
        | inr miss ↦
            let right =
              search_loop-rounds k l f ((i + j) / 2 + 1) j (halve_up k i j h lt)
                (halve_up l i j h' lt) in
            rw (more, miss) right
      ]
]

lt-pow : (n : ℕ) → n < 2 ^ n
lt-pow zero = omega arith
lt-pow (suc n) = let ih = lt-pow n in omega arith

-- Among fewer than `2 ^ k` ranges the search of `Lookup` is over after at most `k` rounds, and the
-- answer of `Lookup` is the one at the index with which it is over then.
pub lookup_ranges-rounds :
    (k : ℕ) (rs : List IpRange) (ip : ℕ)
    → length rs < 2 ^ k
    → (i : ℕ) × (search_loop k (starts_after rs ip) 0 (length rs) ≡ some i)
      × (lookup_ranges rs ip ≡ (if is_empty rs then none else answer_at rs ip i))
unfolding lookup_ranges
lookup_ranges-rounds k rs ip h =
    let n = length rs in
    let below : n < 0 + 2 ^ n = let p = lt-pow n in omega arith in
    let (i, full, short) = search_loop-rounds n k (starts_after rs ip) 0 n below (omega arith) in
    (i, short, rw full refl)
