-- ===== src/Index/Search.antt =====
-- The binary search of `Lookup` against the linear scan of a sorted list of disjoint ranges.
use ip_unt1_com.Prelude.{
  ℕ, zero, suc, ◌+◌, ◌-◌, ◌/◌, ◌≤◌, ◌<◌, ◌≡◌, refl, Bool, true, false, ◌&&◌, List, [], ◌∷◌, Option,
  none, some, Text, leb, ltb, if◌then◌else◌, length, Bool-cases, inl, inr, arith, ltb→lt,
}
use ip_unt1_com.Index.{IpRange, search_loop, starts_after, answer_at, lookup_ranges}

abbrev pub covers : ℕ → IpRange → Bool
covers ip r = leb r.first ip && leb ip r.last

-- The reference: the provider of the first range that holds the address.
unfoldable pub owner : ℕ → List IpRange → Option Text
owner ip [] = none
owner ip (r ∷ rs) = if covers ip r then some r.provider else owner ip rs

abbrev pub StartsAfter : ℕ → List IpRange → Type 0
StartsAfter b [] = Unit
StartsAfter b (r ∷ rs) = b < r.first

-- Ranges in ascending order, each ending before the next begins.
abbrev pub AreDisjoint : List IpRange → Type 0
AreDisjoint [] = Unit
AreDisjoint (r ∷ rs) = (r.first ≤ r.last) × StartsAfter r.last rs × AreDisjoint rs

-- Where a test changes from false to true, if it does so once.
record IsBoundary (f : ℕ → Bool) (lo hi i : ℕ) : Type 0 where
  above : lo ≤ i
  within : i ≤ hi
  before : (k : ℕ) → lo ≤ k → k < i → f k ≡ false
  after : (k : ℕ) → i ≤ k → k < hi → f k ≡ true

abbrev IsMonotone : (ℕ → Bool) → ℕ → Type 0
IsMonotone f n = (j k : ℕ) → j ≤ k → k < n → f j ≡ true → f k ≡ true

module _ (f : ℕ → Bool) (n : ℕ) (mono : IsMonotone f n) where
  search_loop-IsBoundary :
      (fuel i j : ℕ)
      → i ≤ j
      → j ≤ n
      → j - i ≤ fuel
      → (k : ℕ) × (search_loop fuel f i j ≡ some k) × IsBoundary f i j k
  unfolding search_loop
  search_loop-IsBoundary zero i j p q r = (
    i,
    ground arith,
    record {
      above = omega arith;
      within = omega arith;
      before = λ k a b. absurd (omega arith);
      after = λ k a b. absurd (omega arith);
    },
  )
  search_loop-IsBoundary (suc fuel) i j p q r = elim (Bool-cases (ltb i j)) [
    | inr done ↦
        let e : i ≡ j = ground arith in
        (
          i,
          rw done refl,
          record {
            above = omega arith;
            within = omega arith;
            before = λ k a b. absurd (omega arith);
            after = λ k a b. absurd (omega arith);
          },
        )
    | inl more ↦
        let h : ℕ = (i + j) / 2 in
        let lt : i < j = ltb→lt i j more in
        elim (Bool-cases (f ((i + j) / 2))) [
          | inl hit ↦
              let (m, e, b) =
                search_loop-IsBoundary fuel i ((i + j) / 2) (omega arith) (omega arith)
                  (omega arith) in
              (
                m,
                rw (more, hit) e,
                record {
                  above = b.above;
                  within = let w = b.within in omega arith;
                  before = b.before;
                  after = λ k x y. ground (arith, b.after k x, mono ((i + j) / 2) k);
                },
              )
          | inr miss ↦
              let (m, e, b) =
                search_loop-IsBoundary fuel ((i + j) / 2 + 1) j (omega arith) q (omega arith) in
              (
                m,
                rw (more, miss) e,
                record {
                  above = let a = b.above in omega arith;
                  within = b.within;
                  before = λ k x y. ground (arith, b.before k, mono k ((i + j) / 2));
                  after = b.after;
                },
              )
        ]
  ]

-- How many ranges, from the first on, start at or below the address.
count_started : ℕ → List IpRange → ℕ
count_started ip [] = 0
count_started ip (r ∷ rs) = if leb r.first ip then suc (count_started ip rs) else 0

StartsAfter-le : (a b : ℕ) (rs : List IpRange) → a ≤ b → StartsAfter b rs → StartsAfter a rs
StartsAfter-le a b [] h s = tt
StartsAfter-le a b (r ∷ rs) h s = omega arith

-- No range of a disjoint list that starts after the address holds it.
owner_of_StartsAfter :
    (ip : ℕ) (rs : List IpRange) → AreDisjoint rs → StartsAfter ip rs → owner ip rs ≡ none
unfolding owner
owner_of_StartsAfter ip [] d s = refl
owner_of_StartsAfter ip (r ∷ rs) (le, sa, d) s =
    ground (arith, owner_of_StartsAfter ip rs d (StartsAfter-le ip r.last rs (omega arith) sa))

-- Later ranges start later.
starts_after_mono :
    (ip b : ℕ) (rs : List IpRange)
    → AreDisjoint rs
    → StartsAfter b rs
    → ip ≤ b
    → (k : ℕ) → k < length rs
    → starts_after rs ip k ≡ true
starts_after_mono ip b [] d s h k lt = absurd (omega arith)
starts_after_mono ip b (r ∷ rs) (le, sa, d) s h zero lt = ground arith
starts_after_mono ip b (r ∷ rs) (le, sa, d) s h (suc k) lt =
    starts_after_mono ip r.last rs d sa (omega arith) k (omega arith)

starts_after-IsMonotone :
    (ip : ℕ) (rs : List IpRange) → AreDisjoint rs → IsMonotone (starts_after rs ip) (length rs)
starts_after-IsMonotone ip [] d j k h lt e = absurd (omega arith)
starts_after-IsMonotone ip (r ∷ rs) (le, sa, d) zero zero h lt e = e
starts_after-IsMonotone ip (r ∷ rs) (le, sa, d) zero (suc k) h lt e =
    starts_after_mono ip r.last rs d sa (ground arith) k (omega arith)
starts_after-IsMonotone ip (r ∷ rs) (le, sa, d) (suc j) zero h lt e = absurd (omega arith)
starts_after-IsMonotone ip (r ∷ rs) (le, sa, d) (suc j) (suc k) h lt e =
    starts_after-IsMonotone ip rs d j k (omega arith) (omega arith) e

-- The boundary is the count.
boundary-eq-count :
    (ip i : ℕ) (rs : List IpRange)
    → IsBoundary (starts_after rs ip) 0 (length rs) i
    → i ≡ count_started ip rs
unfolding count_started
boundary-eq-count ip i [] b = let w = b.within in omega arith
boundary-eq-count ip zero (r ∷ rs) b = let a = b.after 0 (omega arith) (omega arith) in ground arith
boundary-eq-count ip (suc i) (r ∷ rs) b =
    let first : starts_after (r ∷ rs) ip 0 ≡ false = b.before 0 (omega arith) (omega arith) in
    ground (arith, boundary-eq-count ip i rs tail)
  where
    tail : IsBoundary (starts_after rs ip) 0 (length rs) i
    tail = record {
      above = omega arith;
      within = let w = b.within in omega arith;
      before = λ k x y. b.before (suc k) (omega arith) (omega arith);
      after = λ k x y. b.after (suc k) (omega arith) (omega arith);
    }

answer_one :
    (ip : ℕ) (r : IpRange) (rs : List IpRange)
    → count_started ip rs ≡ 0
    → owner ip rs ≡ none
    → answer_at (r ∷ rs) ip (count_started ip (r ∷ rs)) ≡ owner ip (r ∷ rs)
unfolding count_started owner
answer_one ip r rs h e = elim (Bool-cases (leb r.first ip)) [
  | inl here ↦ rw (here, h, e)
  | inr later ↦ rw (later, e)
]

answer_at-count :
    (ip : ℕ) (rs : List IpRange)
    → AreDisjoint rs
    → answer_at rs ip (count_started ip rs) ≡ owner ip rs
unfolding count_started owner
answer_at-count ip [] d = refl
answer_at-count ip (r ∷ []) d = ground arith
answer_at-count ip (r ∷ s ∷ rs) (le, sa, d) = elim (Bool-cases (leb s.first ip)) [
  | inl more ↦
      let ih = answer_at-count ip (s ∷ rs) d in
      let past : leb ip r.last ≡ false = ground arith in
      let started : leb r.first ip ≡ true = ground arith in rw (started, more, past) (rw more at ih)
  | inr last ↦
      let rest : owner ip (s ∷ rs) ≡ none = owner_of_StartsAfter ip (s ∷ rs) d (ground arith) in
      answer_one ip r (s ∷ rs) (rw last) rest
]

-- On disjoint ranges the binary search answers as the linear scan.
pub lookup_ranges-owner :
    (rs : List IpRange) (ip : ℕ) → AreDisjoint rs → lookup_ranges rs ip ≡ owner ip rs
unfolding lookup_ranges
lookup_ranges-owner [] ip d = unfold owner in refl
lookup_ranges-owner (r ∷ rs) ip d =
    let (i, e, b) =
      search_loop-IsBoundary (starts_after (r ∷ rs) ip) (length (r ∷ rs))
        (starts_after-IsMonotone ip (r ∷ rs) d) (length (r ∷ rs)) 0 (length (r ∷ rs)) (omega arith)
        (omega arith) (omega arith) in
    rw (e, boundary-eq-count ip i (r ∷ rs) b) (answer_at-count ip (r ∷ rs) d)
