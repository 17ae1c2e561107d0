-- ===== src/Snapshot/Fetched.antt =====
-- vpn.go: no fetch of a refresh is lost or blocked, and none depends on the others' order.
use mathlib.Core.List.{append-nil, append_assoc}
use ip_unt1_com.Prelude.{
  ℕ, suc, ◌+◌, ◌*◌, ◌≤◌, ◌<◌, ◌≡◌, refl, ◌⊎◌, inl, inr, List, [], ◌∷◌, ◌++◌, Text, bytes, text_eq,
  length, length-append, map, arith, ◌∙◌, sym, ap, subst, Bool-cases, ltb, ltb→lt,
}
use ip_unt1_com.Net.{Addr}
use ip_unt1_com.Asn.{AsnInfo}
use ip_unt1_com.Prelude.{Map}
use ip_unt1_com.Vpn.{VpnSnapshot, check}
use ip_unt1_com.Snapshot.{FetchResult, refresh}
use ip_unt1_com.Snapshot.Same.{Reordered, by_way_of}
use ip_unt1_com.Snapshot.Arrival.{check-reordered}
use ip_unt1_com.Snapshot.Fetching.{
  jobs, Fetching, launch, send, wg_done, Step, sends, finishes, Reach, here, next,
}
use ip_unt1_com.Snapshot.Orders.{
  AreDistinct, AreDistinct-rest, AreDistinct-names, HasNoTwo, Reordered-AreDistinct,
  AreDistinct-rest, AreDistinct-names, HasNoTwo, Reordered-refl, Reordered-append, Reordered_first,
}

length-eq_zero : (rs : List FetchResult) → length rs ≡ 0 → rs ≡ []
length-eq_zero [] h = refl
length-eq_zero (r ∷ rs) h = absurd (omega (arith, h))

length-map : (f : FetchResult → Text) (rs : List FetchResult) → length (map f rs) ≡ length rs
length-map f [] = refl
length-map f (r ∷ rs) = ap suc (length-map f rs)

record Inv (rs : List FetchResult) (s : Fetching) : Type 0 where
  -- What was sent and what is still to come are the results.
  order : Reordered rs (s.channel ++ s.running)
  -- The wait group counts the goroutines that have not finished.
  counted : s.counter ≡ length s.running + s.sent
  -- The channel has room for all that is still to come.
  fits : length s.channel + length s.running ≡ s.room

send-order :
    (rs : List FetchResult) (s : Fetching) (before after : List FetchResult) (r : FetchResult)
    → AreDistinct rs
    → Reordered rs (s.channel ++ (before ++ r ∷ after))
    → Reordered rs ((s.channel ++ r ∷ []) ++ (before ++ after))
send-order rs s before after r d p =
    let distinct = AreDistinct-rest s.channel (before ++ r ∷ after) (Reordered-AreDistinct p d) in
    rw (append_assoc s.channel (r ∷ []) (before ++ after))
      (by_way_of p (Reordered-append s.channel (Reordered_first before after r distinct)))

send-Inv :
    (rs : List FetchResult) (s : Fetching) (before after : List FetchResult) (r : FetchResult)
    → AreDistinct rs
    → s.running ≡ before ++ r ∷ after
    → Inv rs s
    → Inv rs (send s before r after)
unfolding send
send-Inv rs s before after r d e inv = record {
  order = send-order rs s before after r d (subst (λ l. Reordered rs (s.channel ++ l)) e inv.order);
  counted = omega (
    arith,
    inv.counted,
    ap length e,
    length-append before (r ∷ after),
    length-append before after,
  );
  fits = omega (
    arith,
    inv.fits,
    ap length e,
    length-append before (r ∷ after),
    length-append before after,
    length-append s.channel (r ∷ []),
  );
}

wg_done-Inv : (rs : List FetchResult) (s : Fetching) → 0 < s.sent → Inv rs s → Inv rs (wg_done s)
unfolding wg_done
wg_done-Inv rs s h inv = record {
  order = inv.order;
  counted = omega (arith, inv.counted);
  fits = inv.fits;
}

Reach-Inv :
    {rs : List FetchResult} {k : ℕ} {s : Fetching} → AreDistinct rs → Reach rs k s → Inv rs s
unfolding launch
Reach-Inv {rs} d here = record {
  order = Reordered-refl rs;
  counted = omega arith;
  fits = omega arith;
}
Reach-Inv {rs} d (next {s = s} r (sends before after q e room t)) =
    rw t (send-Inv rs s before after q d e (Reach-Inv d r))
Reach-Inv {rs} d (next {s = s} r (finishes h t)) = rw t (wg_done-Inv rs s h (Reach-Inv d r))

-- Each goroutine takes two steps.
Reach-steps :
    {rs : List FetchResult} {k : ℕ} {s : Fetching}
    → Reach rs k s
    → k + 2 * length s.running + s.sent ≡ 2 * length rs
unfolding launch send wg_done
Reach-steps here = omega arith
Reach-steps (next {s = s} r (sends before after q e room t)) = omega (
  arith,
  Reach-steps r,
  ap length e,
  ap (λ u. length u.running) t,
  ap (λ u. u.sent) t,
  length-append before (q ∷ after),
  length-append before after,
)
Reach-steps (next {s = s} r (finishes h t)) =
    omega (arith, Reach-steps r, ap (λ u. length u.running) t, ap (λ u. u.sent) t)

-- Whatever the names of the feeds, as long as they differ.
module _ {rs : List FetchResult} {k : ℕ} {s : Fetching} (d : AreDistinct rs)
    (r : Reach rs k s) where
  counter-Step :
      (running : List FetchResult) → s.running ≡ running → 0 < s.counter → (t : Fetching) × Step s t
  counter-Step [] e h =
      let inv = Reach-Inv d r in
      (wg_done s, finishes (omega (arith, inv.counted, ap length e)) refl)
  counter-Step (q ∷ qs) e h =
      let inv = Reach-Inv d r in
      (send s [] q qs, sends [] qs q e (omega (arith, inv.fits, ap length e)) refl)

jobs-HasNoTwo : HasNoTwo jobs
unfolding jobs bytes text_eq
jobs-HasNoTwo = ground arith

jobs-AreDistinct : (rs : List FetchResult) → map (λ r. r.name) rs ≡ jobs → AreDistinct rs
jobs-AreDistinct rs named = AreDistinct-names rs (subst HasNoTwo (sym named) jobs-HasNoTwo)

-- In every interleaving of the six fetches of a refresh, where each may end at any time: no run has
-- more than twelve steps, and as long as `wg.Wait` is not over some goroutine can take one.
pub Reach-counter :
    {rs : List FetchResult} {k : ℕ} {s : Fetching}
    → map (λ r. r.name) rs ≡ jobs
    → Reach rs k s
    → (k ≤ 12) × ((s.counter ≡ 0) ⊎ ((t : Fetching) × Step s t))
unfolding jobs
Reach-counter {rs} {k} {s} named r =
    let six : length rs ≡ 6 = sym (length-map (λ q. q.name) rs) ∙ ap length named in
    (
      omega (arith, Reach-steps r, six),
      elim (Bool-cases (ltb 0 s.counter)) [
        | inl left ↦
            inr
              (counter-Step (jobs-AreDistinct rs named) r s.running refl (ltb→lt 0 s.counter left))
        | inr over ↦ inl (ground arith)
      ],
    )

-- When `wg.Wait` is over, the verdict on every address is the one that the results of the feeds
-- lead to in the order in which the code lists them, whatever the interleaving of the fetches.
pub check-fetched :
    (range : Map Addr Text → List (Addr × Text)) (prev : VpnSnapshot) {rs : List FetchResult}
    {k : ℕ} {s : Fetching}
    → map (λ r. r.name) rs ≡ jobs
    → Reach rs k s
    → s.counter ≡ 0
    → (ip : Addr) (asn : AsnInfo)
    → check (refresh range prev s.channel).0 ip asn ≡ check (refresh range prev rs).0 ip asn
check-fetched range prev {rs} {k} {s} named r over ip asn =
    let inv = Reach-Inv (jobs-AreDistinct rs named) r in
    let none_left : s.running ≡ [] = length-eq_zero s.running (omega (arith, inv.counted)) in
    let order : Reordered rs s.channel =
      subst (Reordered rs) (append-nil s.channel)
        (subst (λ l. Reordered rs (s.channel ++ l)) none_left inv.order) in
    sym (check-reordered range prev order ip asn)
