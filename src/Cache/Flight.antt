-- ===== src/Cache/Flight.antt =====
-- Concurrent callers of `Do`, each with its own key, interleaved at the locks and the channel.
use ip_unt1_com.Prelude.{
  ℕ, ◌≡◌, refl, ◌⊎◌, inl, inr, true, false, List, none, some, Text, text_eq_iff, text_instance,
  ◌==◌, Bool-cases, Option-cases, arith, lookup, delete, lookup-insert, lookup-delete, ap,
}
use ip_unt1_com.Prelude.Int.{ℤ}
use ip_unt1_com.Cache.{
  TtlCache, ready, computing, waiting, closing, System, update, new_ttl_cache, get, store, evict,
  enter, finish, close, wake,
}

-- A step of one caller; the environment chooses the caller, the value, the clock and the order.
pub data Step {ℓ} {V : Type ℓ} (job : ℕ → Text) (s t : System V) : Type ℓ where
  enters : (i now : ℕ) → s.pc i ≡ ready → t ≡ enter s i (job i) now → Step job s t
  finishes :
      (i : ℕ) (val : V) (ttl : ℤ) (now later : ℕ) (order : List Text)
      → s.pc i ≡ computing
      → t ≡ finish s i (job i) val ttl now later order
      → Step job s t
  closes : (i : ℕ) (val : V) → s.pc i ≡ closing val → t ≡ close s i val → Step job s t
  wakes :
      (i owner : ℕ) (val : V)
      → s.pc i ≡ waiting owner
      → s.done owner ≡ true
      → s.call_val owner ≡ some val
      → t ≡ wake s i val
      → Step job s t

abbrev pub start {ℓ} : {V : Type ℓ} → ℕ → System V
start max = record {
  cache = new_ttl_cache max;
  pc = λ i. ready;
  call_val = λ i. none;
  done = λ i. false;
}

pub data Reach {ℓ} {V : Type ℓ} (job : ℕ → Text) (max : ℕ) : System V → Type ℓ where
  here : Reach job max (start max)
  next : {s t : System V} → Reach job max s → Step job s t → Reach job max t

-- What the owner of a call is doing, as long as someone may wait for it.
abbrev pub IsServed {ℓ} : {V : Type ℓ} → System V → ℕ → Type ℓ
IsServed {V} s o =
    (s.pc o ≡ computing)
    ⊎ ((v : V) × (s.call_val o ≡ some v) × ((s.pc o ≡ closing v) ⊎ (s.done o ≡ true)))

pub record Inv {ℓ} {V : Type ℓ} (job : ℕ → Text) (s : System V) : Type ℓ where
  -- A caller that computes is the one in flight for its key.
  pub owned : (i : ℕ) → s.pc i ≡ computing → lookup (job i) s.cache.inflight ≡ some i
  -- A call in flight is being computed, for its key.
  pub running :
      (k : Text) (o : ℕ) → lookup k s.cache.inflight ≡ some o → (s.pc o ≡ computing) × (job o ≡ k)
  -- A caller that waits does so for a call for its key, which is computed or has its value.
  pub served : (i o : ℕ) → s.pc i ≡ waiting o → (job o ≡ job i) × IsServed s o
  -- A caller about to close has left its value in its call.
  pub valued : (i : ℕ) (v : V) → s.pc i ≡ closing v → s.call_val i ≡ some v

store-inflight {ℓ} :
    {V : Type ℓ} (c : TtlCache V) (key : Text) (val : V) (ttl : ℤ) (now later : ℕ)
    (order : List Text)
    → (store c key val ttl now later order).inflight ≡ c.inflight
unfolding store evict
store-inflight c key val ttl now later order = ground arith

module _ {ℓ} {V : Type ℓ} (job : ℕ → Text) where
  Inv-start : (max : ℕ) → Inv {V = V} job (start max)
  unfolding new_ttl_cache lookup
  Inv-start max = record {
    owned = λ i e. cc;
    running = λ k o e. cc;
    served = λ i o e. cc;
    valued = λ i v e. cc;
  }

  close-Inv :
      (s : System V) (i : ℕ) (val : V) → Inv job s → s.pc i ≡ closing val → Inv job (close s i val)
  unfolding close
  close-Inv s i val inv h = record {
    owned = λ j e. ground (arith, inv.owned j);
    running = λ k o e. ground (arith, inv.running k o);
    served = λ j o e. ground (arith, inv.served j o, inv.valued i val);
    valued = λ j v e. ground (arith, inv.valued j v);
  }

  wake-Inv :
      (s : System V) (i owner : ℕ) (val : V)
      → Inv job s
      → s.pc i ≡ waiting owner
      → Inv job (wake s i val)
  unfolding wake
  wake-Inv s i owner val inv h = record {
    owned = λ j e. ground (arith, inv.owned j);
    running = λ k o e. ground (arith, inv.running k o);
    served = λ j o e. ground (arith, inv.served j o);
    valued = λ j v e. ground (arith, inv.valued j v);
  }

  enter-Inv :
      (s : System V) (i now : ℕ) → Inv job s → s.pc i ≡ ready → Inv job (enter s i (job i) now)
  unfolding enter
  enter-Inv s i now inv h = elim (Option-cases (get s.cache (job i) now)) [
    | inr (v, hit) ↦
        rw (hit, enter)
          (record {
            owned = λ j e. ground (arith, inv.owned j);
            running = λ k o e. ground (arith, inv.running k o);
            served = λ j o e. ground (arith, inv.served j o);
            valued = λ j v e. ground (arith, inv.valued j v);
          })
    | inl miss ↦ elim (Option-cases (lookup (job i) s.cache.inflight)) [
      | inr (owner, found) ↦
          rw (miss, enter)
            (rw found (record {
              owned = λ j e. ground (arith, inv.owned j);
              running = λ k o e. ground (arith, inv.running k o);
              served = λ j o e. ground (arith, inv.served j o, inv.running (job i) owner);
              valued = λ j v e. ground (arith, inv.valued j v);
            }))
      | inl free ↦
          rw (miss, enter)
            (rw free (record {
              owned = λ j e. ground (
                arith,
                inv.owned j,
                lookup-insert (job i) (job j) i s.cache.inflight,
                text_eq_iff (job i) (job j),
              );
              running = λ k o e. ground (
                arith,
                inv.running k o,
                lookup-insert (job i) k i s.cache.inflight,
                text_eq_iff (job i) k,
              );
              served = λ j o e. ground (arith, inv.served j o);
              valued = λ j v e. ground (arith, inv.valued j v);
            }))
    ]
  ]

  -- Those who wait for the finished call find its value; the others are not concerned.
  finish-IsServed :
      (s : System V) (i : ℕ) (val : V) (c : TtlCache V)
      → Inv job s
      → s.pc i ≡ computing
      → (j o : ℕ) → update s.pc i (closing val) j ≡ waiting o
      → (job o ≡ job j)
        × IsServed
            (record s {
              cache = record c { inflight = delete (job i) s.cache.inflight };
              pc = update s.pc i (closing val);
              call_val = update s.call_val i (some val);
            })
            o
  finish-IsServed s i val c inv h j o e =
      let old : s.pc j ≡ waiting o = ground arith in
      let (same, before) = inv.served j o old in
      elim (Bool-cases (i == o)) [
        | inl own ↦ (same, inr (val, ground arith, inl (ground arith)))
        | inr other ↦ elim before [
          | inl running ↦ (same, inl (ground arith))
          | inr (v, left, state) ↦ (same, inr (v, ground arith, ground arith))
        ]
      ]

  finish-Inv :
      (s : System V) (i : ℕ) (val : V) (ttl : ℤ) (now later : ℕ) (order : List Text)
      → Inv job s
      → s.pc i ≡ computing
      → Inv job (finish s i (job i) val ttl now later order)
  unfolding finish
  finish-Inv s i val ttl now later order inv h =
      let kept = store-inflight s.cache (job i) val ttl now later order in
      let c = store s.cache (job i) val ttl now later order in
      rw kept (record {
        owned = λ j e. ground (
          arith,
          inv.owned j,
          inv.owned i,
          lookup-delete (job i) (job j) s.cache.inflight,
          text_eq_iff (job i) (job j),
        );
        running = λ k o e. ground (
          arith,
          inv.running k o,
          inv.owned i,
          lookup-delete (job i) k s.cache.inflight,
          text_eq_iff (job i) k,
        );
        served = finish-IsServed s i val c inv h;
        valued = λ j v e. ground (arith, inv.valued j v);
      })

  Step-Inv : {s t : System V} → Inv job s → Step job s t → Inv job t
  Step-Inv {s} inv (enters i now h e) = rw e (enter-Inv s i now inv h)
  Step-Inv {s} inv (finishes i val ttl now later order h e) =
      rw e (finish-Inv s i val ttl now later order inv h)
  Step-Inv {s} inv (closes i val h e) = rw e (close-Inv s i val inv h)
  Step-Inv {s} inv (wakes i owner val h d v e) = rw e (wake-Inv s i owner val inv h)

  pub Reach-Inv : {max : ℕ} {s : System V} → Reach job max s → Inv job s
  Reach-Inv {max} here = Inv-start max
  Reach-Inv (next r st) = Step-Inv (Reach-Inv r) st

  -- In every interleaving two callers that compute a value for one key are one caller: a key has
  -- one computation at a time.
  pub Reach-single_flight :
      {max : ℕ} {s : System V} (i j : ℕ)
      → Reach job max s
      → s.pc i ≡ computing
      → s.pc j ≡ computing
      → job i ≡ job j
      → i ≡ j
  Reach-single_flight {s} i j r p q same =
      let inv = Reach-Inv r in
      let a = inv.owned i p in
      let b = inv.owned j q in ground (arith, ap (λ k. lookup k s.cache.inflight) same)

  -- In every interleaving a caller that waits does so for a call for its own key, and the owner of
  -- the call computes, or has left a value there and is about to close the channel, or has left a
  -- value and the waiting caller can take its step with that value.
  pub Reach-waiting :
      {max : ℕ} {s : System V} (i owner : ℕ)
      → Reach job max s
      → s.pc i ≡ waiting owner
      → (job owner ≡ job i)
        × ((s.pc owner ≡ computing)
            ⊎ ((v : V) × (s.call_val owner ≡ some v)
                × ((s.pc owner ≡ closing v) ⊎ Step job s (wake s i v))))
  Reach-waiting {s} i owner r h =
      let (same, served) = (Reach-Inv r).served i owner h in
      elim served [
        | inl running ↦ (same, inl running)
        | inr (v, left, inl about) ↦ (same, inr (v, left, inl about))
        | inr (v, left, inr closed) ↦
            (same, inr (v, left, inr (wakes i owner v h closed left refl)))
      ]
