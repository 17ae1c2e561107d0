-- ===== src/Cache/Origins.antt =====
-- Where the values come from that `Do` returns.
use ip_unt1_com.Prelude.{
  ℕ, ◌≡◌, refl, ◌⊎◌, inl, inr, Bool, true, List, none, some, Text, text_instance, ◌==◌, Bool-cases,
  Option-cases, arith, lookup, ap, subst, All,
}
use ip_unt1_com.Prelude.Int.{ℤ}
use ip_unt1_com.Cache.{
  CacheEntry, ready, computing, returned, System, update, new_ttl_cache, get, enter, finish, close,
  wake,
}
use ip_unt1_com.Cache.Values.{All-store, live-some, All-lookup, All-mono}
use ip_unt1_com.Cache.Flight.{
  Step, enters, finishes, closes, wakes, start, Reach, here, next, Inv, Reach-Inv,
}

module _ {ℓ} {V : Type ℓ} (job : ℕ → Text) where
  -- Some caller for the key has computed the value.
  abbrev pub Origin : System V → Text → V → Type ℓ
  Origin s k v = (j : ℕ) × (job j ≡ k) × (s.call_val j ≡ some v)

  abbrev HasOrigin : System V → Text × CacheEntry V → Type ℓ
  HasOrigin s e = Origin s e.0 e.1.val

  pub record IsTraced (s : System V) : Type ℓ where
    -- Every entry, every value that is about to be returned and every value that was returned.
    pub entries : All (HasOrigin s) s.cache.entries
    pub given : (i : ℕ) (v : V) → s.pc i ≡ returned v → Origin s (job i) v
    -- A caller that has not computed has left nothing.
    pub unset : (i : ℕ) → (s.pc i ≡ ready) ⊎ (s.pc i ≡ computing) → s.call_val i ≡ none

  IsTraced-start : (max : ℕ) → IsTraced (start max)
  unfolding new_ttl_cache
  IsTraced-start max = record { entries = tt; given = λ i v e. cc; unset = λ i h. refl }

  -- Nothing that was computed is forgotten.
  finish-Origin :
      (s : System V) (i : ℕ) (val : V) (ttl : ℤ) (now later : ℕ) (order : List Text) (k : Text)
      (v : V)
      → s.call_val i ≡ none
      → Origin s k v
      → Origin (finish s i (job i) val ttl now later order) k v
  unfolding finish
  finish-Origin s i val ttl now later order k v blank (j, same, left) = (
    j,
    same,
    elim (Bool-cases (i == j)) [
      | inl own ↦ let e : i ≡ j = ground arith in absurd (ground (arith, ap s.call_val e))
      | inr other ↦ ground arith
    ],
  )

  finish-IsTraced :
      (s : System V) (i : ℕ) (val : V) (ttl : ℤ) (now later : ℕ) (order : List Text)
      → IsTraced s
      → s.pc i ≡ computing
      → IsTraced (finish s i (job i) val ttl now later order)
  unfolding finish
  finish-IsTraced s i val ttl now later order inv h =
      let t = finish s i (job i) val ttl now later order in
      let blank = inv.unset i (inr h) in
      let kept = λ (k : Text) (v : V). finish-Origin s i val ttl now later order k v blank in
      let own : Origin t (job i) val = (i, refl, ground arith) in
      record {
        entries = All-store (HasOrigin t) s.cache (job i) val ttl now later order own (
            All-mono (HasOrigin s) (HasOrigin t) s.cache.entries (λ e o. kept e.0 e.1.val o)
              inv.entries);
        given = λ j v e. kept (job j) v (inv.given j v (ground arith));
        unset = λ j e. ground (arith, inv.unset j);
      }

  -- What a hit returns was computed for that key.
  get-Origin :
      (s : System V) (k : Text) (now : ℕ) (v : V)
      → IsTraced s
      → get s.cache k now ≡ some v
      → Origin s k v
  unfolding get
  get-Origin s k now v inv hit =
      let (e, there, same) = live-some (lookup k s.cache.entries) now v hit in
      subst (Origin s k) same (All-lookup (HasOrigin s) k e s.cache.entries inv.entries there)

  enter-IsTraced :
      (s : System V) (i now : ℕ) → IsTraced s → s.pc i ≡ ready → IsTraced (enter s i (job i) now)
  unfolding enter
  enter-IsTraced s i now inv h = elim (Option-cases (get s.cache (job i) now)) [
    | inr (v, hit) ↦
        rw (hit, enter)
          (record {
            entries = inv.entries;
            given = λ j w e. elim (Bool-cases (i == j)) [
              | inl own ↦
                  let same : i ≡ j = ground arith in
                  let val : v ≡ w = ground arith in
                  subst (Origin s (job j)) val
                    (subst (λ k. Origin s k v) (ap job same) (get-Origin s (job i) now v inv hit))
              | inr other ↦ inv.given j w (ground arith)
            ];
            unset = λ j e. ground (arith, inv.unset j);
          })
    | inl miss ↦ elim (Option-cases (lookup (job i) s.cache.inflight)) [
      | inr (owner, busy) ↦
          rw (miss, enter)
            (rw busy (record {
              entries = inv.entries;
              given = λ j w e. inv.given j w (ground arith);
              unset = λ j e. ground (arith, inv.unset j);
            }))
      | inl free ↦
          rw (miss, enter)
            (rw free (record {
              entries = inv.entries;
              given = λ j w e. inv.given j w (ground arith);
              unset = λ j e. ground (arith, inv.unset j, inv.unset i (inl h));
            }))
    ]
  ]

  -- A caller returns a value that some caller for its key computed.
  returns-IsTraced :
      (s : System V) (i : ℕ) (v : V) (done : ℕ → Bool)
      → IsTraced s
      → ((s.pc i ≡ ready) ⊎ (s.pc i ≡ computing) → ⊥)
      → Origin s (job i) v
      → IsTraced (record s { pc = update s.pc i (returned v); done = done })
  returns-IsTraced s i v done inv later o = record {
    entries = inv.entries;
    given = λ j w e. elim (Bool-cases (i == j)) [
      | inl own ↦
          let same : i ≡ j = ground arith in
          let val : v ≡ w = ground arith in
          subst (Origin s (job j)) val (subst (λ k. Origin s k v) (ap job same) o)
      | inr other ↦ inv.given j w (ground arith)
    ];
    unset = λ j e. ground (arith, inv.unset j);
  }

  Step-IsTraced : {s t : System V} → Inv job s → IsTraced s → Step job s t → IsTraced t
  unfolding close wake
  Step-IsTraced {s} inv two (enters i now h e) = rw e (enter-IsTraced s i now two h)
  Step-IsTraced {s} inv two (finishes i val ttl now later order h e) =
      rw e (finish-IsTraced s i val ttl now later order two h)
  Step-IsTraced {s} inv two (closes i val h e) = rw e (
      returns-IsTraced s i val (update s.done i true) two (λ x. ground arith)
        (i, refl, inv.valued i val h))
  Step-IsTraced {s} inv two (wakes i owner val h d v e) =
      rw e (
        returns-IsTraced s i val s.done two (λ x. ground arith)
          (owner, (inv.served i owner h).0, v))

  Reach-IsTraced : {max : ℕ} {s : System V} → Reach job max s → IsTraced s
  Reach-IsTraced {max} here = IsTraced-start max
  Reach-IsTraced (next r st) = Step-IsTraced (Reach-Inv job r) (Reach-IsTraced r) st

  -- In every interleaving the value that a caller returns is one that some caller for the same key
  -- computed, whether it came from the cache, from the caller's own computation or from a call
  -- that it waited for: no value crosses over to another key.
  pub Reach-returned :
      {max : ℕ} {s : System V} (i : ℕ) (v : V)
      → Reach job max s
      → s.pc i ≡ returned v
      → (j : ℕ) × (job j ≡ job i) × (s.call_val j ≡ some v)
  Reach-returned i v r h = (Reach-IsTraced r).given i v h
