-- ===== src/Signals/Slots.antt =====
-- signals.go: the semaphore of `whoisCache`, a channel of `whoisMaxInFlight` places, taken by the
-- callers of `Lookup` whose computation runs, in any interleaving.
use ip_unt1_com.Prelude.{
  ℕ, zero, suc, ◌+◌, ◌-◌, ◌≤◌, ◌<◌, ◌≡◌, refl, List, [], ◌∷◌, some, get_elem?, arith, ap,
}
use ip_unt1_com.Signals.{whois_max_in_flight}

-- Where a caller stands: before the `select`, with a place in the channel, or past it.
pub data Slot : Type 0 where
  asking : Slot
  querying : Slot
  over : Slot

pub record Slots : Type 0 where
  pub sem : ℕ
  pub callers : List Slot

unfoldable pub set_at : List Slot → ℕ → Slot → List Slot
set_at [] i s = []
set_at (t ∷ ts) zero s = s ∷ ts
set_at (t ∷ ts) (suc i) s = t ∷ set_at ts i s

-- `c.sem <- struct{}{}`, for a channel with room.
unfoldable pub acquire : Slots → ℕ → Slots
acquire c i = record { sem = c.sem + 1; callers = set_at c.callers i querying }

-- `<-c.sem`, deferred to the end of the computation.
unfoldable pub release : Slots → ℕ → Slots
release c i = record { sem = c.sem - 1; callers = set_at c.callers i over }

-- `<-ctx.Done()`.
unfoldable pub give_up : Slots → ℕ → Slots
give_up c i = record c { callers = set_at c.callers i over }

pub data Step (c d : Slots) : Type 0 where
  acquires :
      (i : ℕ)
      → get_elem? c.callers i ≡ some asking
      → c.sem < whois_max_in_flight
      → d ≡ acquire c i
      → Step c d
  releases : (i : ℕ) → get_elem? c.callers i ≡ some querying → d ≡ release c i → Step c d
  gives_up : (i : ℕ) → get_elem? c.callers i ≡ some asking → d ≡ give_up c i → Step c d
  comes : d ≡ record c { callers = asking ∷ c.callers } → Step c d

pub data Reach : Slots → Type 0 where
  here : Reach (record { sem = 0; callers = [] })
  next : {c d : Slots} → Reach c → Step c d → Reach d

abbrev pub is_querying : Slot → ℕ
is_querying querying = 1
is_querying _ = 0

-- The queries under way.
abbrev pub queries : List Slot → ℕ
queries [] = 0
queries (s ∷ ss) = is_querying s + queries ss

queries-set_at :
    (ss : List Slot) (i : ℕ) (old s : Slot)
    → get_elem? ss i ≡ some old
    → queries (set_at ss i s) + is_querying old ≡ queries ss + is_querying s
unfolding set_at
queries-set_at [] i old s h = absurd (ground arith)
queries-set_at (t ∷ ts) zero old s h =
    let e : t ≡ old = ground arith in omega (arith, ap is_querying e)
queries-set_at (t ∷ ts) (suc i) old s h = omega (arith, queries-set_at ts i old s h)

pub record IsCounted (c : Slots) : Type 0 where
  pub counted : c.sem ≡ queries c.callers
  pub bounded : c.sem ≤ whois_max_in_flight

Step-IsCounted : {c d : Slots} → IsCounted c → Step c d → IsCounted d
unfolding acquire release give_up
Step-IsCounted {c} inv (acquires i h room e) = rw e (record {
  counted = omega (arith, inv.counted, queries-set_at c.callers i asking querying h);
  bounded = omega (arith, room);
})
Step-IsCounted {c} inv (releases i h e) = rw e (record {
  counted = omega (arith, inv.counted, queries-set_at c.callers i querying over h);
  bounded = omega (arith, inv.bounded);
})
Step-IsCounted {c} inv (gives_up i h e) = rw e (record {
  counted = omega (arith, inv.counted, queries-set_at c.callers i asking over h);
  bounded = inv.bounded;
})
Step-IsCounted {c} inv (comes e) =
    rw e (record { counted = omega (arith, inv.counted); bounded = inv.bounded })

Reach-IsCounted : {c : Slots} → Reach c → IsCounted c
Reach-IsCounted here = record { counted = refl; bounded = omega arith }
Reach-IsCounted (next r st) = Step-IsCounted (Reach-IsCounted r) st

-- In every interleaving at most `whoisMaxInFlight` WHOIS queries are under way, and the channel
-- holds one place for each of them: none is lost, whoever finishes or gives up.
pub Reach-queries :
    {c : Slots} → Reach c → (queries c.callers ≤ whois_max_in_flight) × (c.sem ≡ queries c.callers)
Reach-queries r =
    let inv = Reach-IsCounted r in (omega (arith, inv.counted, inv.bounded), inv.counted)
