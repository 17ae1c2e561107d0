-- ===== src/Ua/Seen.antt =====
-- ua.go: the size of the set of user agents.
use ip_unt1_com.Prelude.{
  ℕ, ◌+◌, ◌≤◌, ◌≡◌, refl, ◌⊎◌, inl, inr, true, false, List, [], ◌∷◌, none, some, Text, text_eq_iff,
  is_empty, ltb, leb, Map, size, lookup, insert, delete, contains-eq_lookup, lookup-insert,
  lookup-delete, size-insert-le, size-insert_present, size-delete_present, size-delete-le,
  text_instance, Bool-cases, Option-cases, arith, sym, subst,
}
use ip_unt1_com.Prelude.Ranging.{Covers, Covers-delete, Covers-nil}
use ip_unt1_com.Ua.{UaSeenSet, Sweep, sweep_step, sweep, evict_seen, is_recent, first_seen}

-- No entry has the empty key, and the oldest entry is there and has not expired.
record IsHeld (ttl now : ℕ) (s : Sweep) : Type 0 where
  named : is_empty s.oldest ≡ false
  recent : is_recent ttl now (lookup s.oldest s.items) ≡ true
  filled : lookup [] s.items ≡ none

sweep_step-size :
    (ttl now : ℕ) (s : Sweep) (k : Text) → size (sweep_step ttl now s k).items ≤ size s.items
unfolding sweep_step
sweep_step-size ttl now s k = ground (arith, size-delete-le k s.items)

sweep-size :
    (ttl now : ℕ) (s : Sweep) (ks : List Text) → size (sweep ttl now s ks).items ≤ size s.items
unfolding sweep
sweep-size ttl now s [] = omega arith
sweep-size ttl now s (k ∷ ks) =
    omega (arith, sweep-size ttl now (sweep_step ttl now s k) ks, sweep_step-size ttl now s k)

nonempty-key :
    (k : Text) (m : Map Text ℕ) (t : ℕ)
    → lookup [] m ≡ none
    → lookup k m ≡ some t
    → is_empty k ≡ false
nonempty-key [] m t none_at at = absurd (cc)
nonempty-key (c ∷ k) m t none_at at = refl

sweep_step-IsHeld :
    (ttl now : ℕ) (s : Sweep) (k : Text)
    → IsHeld ttl now s
    → IsHeld ttl now (sweep_step ttl now s k)
unfolding sweep_step
sweep_step-IsHeld ttl now s k h = record {
  named = ground (arith, h.named, nonempty-key k s.items);
  recent = ground (arith, h.recent, lookup-delete k s.oldest s.items, text_eq_iff k s.oldest);
  filled = ground (arith, h.filled, lookup-delete k [] s.items);
}

sweep-IsHeld :
    (ttl now : ℕ) (s : Sweep) (ks : List Text)
    → IsHeld ttl now s
    → IsHeld ttl now (sweep ttl now s ks)
unfolding sweep
sweep-IsHeld ttl now s [] h = h
sweep-IsHeld ttl now s (k ∷ ks) h =
    sweep-IsHeld ttl now (sweep_step ttl now s k) ks (sweep_step-IsHeld ttl now s k h)

-- A turn on an entry that has not expired, with no oldest entry so far.
sweep_step-first :
    (ttl now : ℕ) (s : Sweep) (k : Text) (t : ℕ)
    → s.oldest ≡ []
    → lookup [] s.items ≡ none
    → lookup k s.items ≡ some t
    → leb (t + ttl) now ≡ false
    → IsHeld ttl now (sweep_step ttl now s k)
unfolding sweep_step
sweep_step-first ttl now s k t none_yet filled at recent = record {
  named = ground (arith, nonempty-key k s.items t filled at);
  recent = ground arith;
  filled = ground arith;
}

-- A turn that finds nothing, or an expired entry.
sweep_step-none :
    (ttl now : ℕ) (s : Sweep) (k : Text) → lookup k s.items ≡ none → sweep_step ttl now s k ≡ s
unfolding sweep_step
sweep_step-none ttl now s k gone = rw (gone, sweep_step)

sweep_step-expired :
    (ttl now : ℕ) (s : Sweep) (k : Text) (t : ℕ)
    → lookup k s.items ≡ some t
    → leb (t + ttl) now ≡ true
    → sweep_step ttl now s k ≡ record s { items = delete k s.items }
unfolding sweep_step
sweep_step-expired ttl now s k t at old = rw (at, old, sweep_step)

Covers-none :
    (k : Text) (ks : List Text) (m : Map Text ℕ)
    → Covers (k ∷ ks) m
    → lookup k m ≡ none
    → Covers ks m
Covers-none k ks m c gone j h = ground (arith, c j, text_eq_iff k j, contains-eq_lookup j m)

abbrev IsSwept : ℕ → ℕ → Sweep → Type 0
IsSwept ttl now r = IsHeld ttl now r ⊎ (size r.items ≡ 0)

-- After the loop either an entry is held as the oldest, or none is left.
sweep-found :
    (ttl now : ℕ) (ks : List Text) (s : Sweep)
    → s.oldest ≡ []
    → lookup [] s.items ≡ none
    → Covers ks s.items
    → IsSwept ttl now (sweep ttl now s ks)
unfolding sweep
sweep-found ttl now [] s e filled c = inr (Covers-nil s.items c)
sweep-found ttl now (k ∷ ks) s e filled c = elim (Option-cases (lookup k s.items)) [
  | inl gone ↦
      subst (λ u. IsSwept ttl now (sweep ttl now u ks)) (sym (sweep_step-none ttl now s k gone))
        (sweep-found ttl now ks s e filled (Covers-none k ks s.items c gone))
  | inr (t, at) ↦ elim (Bool-cases (leb (t + ttl) now)) [
    | inl old ↦
        subst (λ u. IsSwept ttl now (sweep ttl now u ks))
          (sym (sweep_step-expired ttl now s k t at old))
          (sweep-found ttl now ks (record s { items = delete k s.items }) e
            (ground (arith, lookup-delete k [] s.items)) (Covers-delete k ks s.items c))
    | inr recent ↦ inl (
        sweep-IsHeld ttl now (sweep_step ttl now s k) ks
          (sweep_step-first ttl now s k t e filled at recent))
  ]
]

evict_seen-size :
    (cap ttl now : ℕ) (items : Map Text ℕ) (order : List Text)
    → lookup [] items ≡ none
    → Covers order items
    → size items ≤ cap + 1
    → size (evict_seen cap ttl now items order) ≤ cap
unfolding evict_seen
evict_seen-size cap ttl now items order filled c le =
    let s : Sweep = record { items = items; oldest = []; oldest_t = 0 } in
    let r = sweep ttl now s order in
    let less = sweep-size ttl now s order in
    elim (sweep-found ttl now order s refl filled c) [
      | inr empty ↦ ground (arith, empty)
      | inl held ↦ ground (
        arith,
        held.named,
        held.recent,
        less,
        size-delete_present r.oldest r.items,
        contains-eq_lookup r.oldest r.items,
      )
    ]

-- `firstSeen` keeps the number of entries within the cap, in whatever order the eviction meets
-- them, where no user agent is the empty text.
pub first_seen-size :
    (s : UaSeenSet) (key : Text) (now : ℕ) (order : List Text)
    → is_empty key ≡ false
    → lookup [] s.items ≡ none
    → Covers order (insert key now s.items)
    → size s.items ≤ s.cap
    → size (first_seen s key now order).0.items ≤ s.cap
unfolding first_seen
first_seen-size s key now order named filled c le = elim (Option-cases (lookup key s.items)) [
  | inl fresh ↦
      rw (fresh, first_seen)
        (evict_seen-size s.cap s.ttl now (insert key now s.items) order
          (ground (arith, filled, named, lookup-insert key [] now s.items, text_eq_iff key [])) c
          (omega (arith, le, size-insert-le key now s.items)))
  | inr (t, known) ↦ elim (Bool-cases (ltb now (t + s.ttl))) [
    | inl recent ↦ ground (arith, size-insert_present key now t s.items known)
    | inr old ↦
        rw (known, old, first_seen)
          (evict_seen-size s.cap s.ttl now (insert key now s.items) order
            (ground (arith, filled, named, lookup-insert key [] now s.items, text_eq_iff key [])) c
            (omega (arith, le, size-insert-le key now s.items)))
  ]
]
