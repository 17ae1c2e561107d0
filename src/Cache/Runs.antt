-- ===== src/Cache/Runs.antt =====
-- cache.go: the callers of `Do`, as long as there are finitely many, all return.
use ip_unt1_com.Prelude.{
  ℕ, zero, suc, ◌+◌, ◌*◌, ◌≤◌, ◌<◌, ◌≡◌, refl, inl, inr, false, Text, text_instance, ◌==◌,
  Bool-cases, Option-cases, arith, lookup, ap, ◌∙◌,
}
use ip_unt1_com.Cache.{
  Pc, ready, computing, waiting, closing, returned, System, update, get, enter, finish, close, wake,
}
use ip_unt1_com.Cache.Flight.{Step, enters, finishes, closes, wakes, start, Reach, here, next}

module _ {ℓ} {V : Type ℓ} where
  -- How many steps a caller has before it at most.
  abbrev pub steps_left : Pc V → ℕ
  steps_left ready = 3
  steps_left computing = 2
  steps_left (waiting owner) = 1
  steps_left (closing v) = 1
  steps_left (returned v) = 0

  abbrev pub at_start : ℕ → Pc V
  at_start i = ready

  pub total : ℕ → (ℕ → Pc V) → ℕ
  total zero pc = 0
  total (suc n) pc = steps_left (pc n) + total n pc

  total-update_above :
      (n i : ℕ) (pc : ℕ → Pc V) (p : Pc V) → n ≤ i → total n (update pc i p) ≡ total n pc
  unfolding total
  total-update_above zero i pc p h = refl
  total-update_above (suc n) i pc p h =
      let other : (i == n) ≡ false = ground arith in
      rw other (omega (arith, total-update_above n i pc p (omega (arith, h))))

  total-update :
      (n i : ℕ) (pc : ℕ → Pc V) (p : Pc V)
      → i < n
      → total n (update pc i p) + steps_left (pc i) ≡ total n pc + steps_left p
  unfolding total
  total-update zero i pc p h = absurd (omega (arith, h))
  total-update (suc n) i pc p h = elim (Bool-cases (i == n)) [
    | inl last ↦
        let same : i ≡ n = ground arith in
        let above = total-update_above n i pc p (omega (arith, same)) in
        rw last (omega (arith, above, ap (λ j. steps_left (pc j)) same))
    | inr before ↦ rw before (omega (arith, total-update n i pc p (ground arith)))
  ]

  module _ (job : ℕ → Text) where
    abbrev pub caller : {s t : System V} → Step job s t → ℕ
    caller (enters i now h e) = i
    caller (finishes i val ttl now later order h e) = i
    caller (closes i val h e) = i
    caller (wakes i owner val h d v e) = i

    -- A run of so many steps of the callers below `n`, from the start.
    pub data Run (max n : ℕ) : ℕ → System V → Type ℓ where
      none_yet : Run max n zero (start max)
      one_more :
          {k : ℕ} {s t : System V}
          → Run max n k s
          → (st : Step job s t) → caller st < n
          → Run max n (suc k) t

    enter-pc :
        (s : System V) (i now : ℕ)
        → (p : Pc V) × ((enter s i (job i) now).pc ≡ update s.pc i p) × (steps_left p < 3)
    unfolding enter
    enter-pc s i now = elim (Option-cases (get s.cache (job i) now)) [
      | inr (v, hit) ↦ (returned v, rw (hit, enter), omega arith)
      | inl miss ↦ elim (Option-cases (lookup (job i) s.cache.inflight)) [
        | inr (owner, found) ↦ (waiting owner, rw (miss, enter) (rw found), omega arith)
        | inl free ↦ (computing, rw (miss, enter) (rw free), omega arith)
      ]
    ]

    -- A step takes one caller on and leaves the others where they are.
    Step-pc :
        {s t : System V} (st : Step job s t)
        → (p : Pc V) × (t.pc ≡ update s.pc (caller st) p)
          × (steps_left p < steps_left (s.pc (caller st)))
    unfolding finish close wake
    Step-pc {s} (enters i now h e) =
        let (p, moved, less) = enter-pc s i now in (p, ap (λ u. u.pc) e ∙ moved, rw h less)
    Step-pc {s} (finishes i val ttl now later order h e) =
        (closing val, ap (λ u. u.pc) e, rw h (omega arith))
    Step-pc {s} (closes i val h e) = (returned val, ap (λ u. u.pc) e, rw h (omega arith))
    Step-pc {s} (wakes i owner val h d v e) = (returned val, ap (λ u. u.pc) e, rw h (omega arith))

    pub Run-total :
        {max n k : ℕ} {s : System V} → Run max n k s → total n s.pc + k ≤ total n at_start
    Run-total none_yet = omega arith
    Run-total {max} {n} (one_more r st below) =
        let (p, moved, less) = Step-pc st in
        omega (arith, Run-total r, ap (total n) moved, total-update n (caller st) _ p below, less)

    pub Run-Reach : {max n k : ℕ} {s : System V} → Run max n k s → Reach job max s
    Run-Reach none_yet = here
    Run-Reach (one_more r st below) = next (Run-Reach r) st

    -- The callers from `n` on have not come.
    pub Run-ready : {max n k : ℕ} {s : System V} (i : ℕ) → Run max n k s → n ≤ i → s.pc i ≡ ready
    Run-ready i none_yet above = refl
    Run-ready i (one_more r st below) above =
        let (p, moved, less) = Step-pc st in
        let other : (caller st == i) ≡ false = ground arith in
        ap (λ f. f i) moved ∙ rw other (Run-ready i r above)

pub total-start {ℓ} : (V : Type ℓ) (n : ℕ) → total n (at_start {V = V}) ≡ 3 * n
unfolding total
total-start V zero = refl
total-start V (suc n) = omega (arith, total-start V n)
