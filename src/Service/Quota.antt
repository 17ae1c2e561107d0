-- ===== src/Service/Quota.antt =====
-- main.go and ratelimit.go: how many addresses the service looks up for one visitor.
use ip_unt1_com.Prelude.{
  ℕ, ◌+◌, ◌*◌, ◌≤◌, ◌≡◌, refl, Bool, false, List, [], ◌∷◌, Text, text_eq, if◌then◌else◌, Bool-cases,
  inl, inr, arith, ap, ◌∙◌,
}
use ip_unt1_com.Limit.{RateLimiter, allow, limiter_key, new_rate_limiter, second}
use ip_unt1_com.Limit.Budget.{count_true}
use ip_unt1_com.Limit.Answers.{Turns, answers, IsCalm}
use ip_unt1_com.Limit.Callers.{granted, times_of, last_time, grants-budget}
use ip_unt1_com.Page.Status.{target_of}
use ip_unt1_com.Service.{
  Service, Event, asks, refreshes, marks, mark_loaded, serve, start, new_server,
}
use ip_unt1_com.Service.Charges.{is_look_up, visitor_of, asks_other, handle-Charges}

-- The calls of `Allow` that the requests make, with the key of the visitor.
unfoldable pub turns : Bool → List Event → Turns
turns trust [] = []
turns trust (asks path format w c ∷ es) =
    let rest = turns trust es in
    if asks_other trust w c
    then (limiter_key (visitor_of trust w c), w.now, w.limit_order) ∷ rest
    else rest
turns trust (refreshes range results ∷ es) = turns trust es
turns trust (marks time ∷ es) = turns trust es

-- How many addresses of others are looked up for the visitors with a key.
unfoldable pub looked_up : Text → Service → List Event → ℕ
looked_up k s [] = 0
looked_up k s (asks path format w c ∷ es) =
    let rest = looked_up k (serve s (asks path format w c)) es in
    if text_eq (limiter_key (visitor_of s.server.trust_cf_headers w c)) k
    then count_true (is_look_up (target_of s.server w c)) + rest
    else rest
looked_up k s (refreshes range results ∷ es) = looked_up k (serve s (refreshes range results)) es
looked_up k s (marks time ∷ es) = looked_up k (serve s (marks time)) es

mark_loaded-keeps :
    (s : Service) (time : Text)
    → ((mark_loaded s time).server.trust_cf_headers ≡ s.server.trust_cf_headers)
      × ((mark_loaded s time).server.lookup_limit ≡ s.server.lookup_limit)
unfolding mark_loaded
mark_loaded-keeps s time = ground arith

-- What the limiter alone grants to a key.
abbrev granted_by : Text → Bool → RateLimiter → List Event → ℕ
granted_by k trust l es = granted k (turns trust es) (answers l (turns trust es))

looked_up-granted :
    (k : Text) (s : Service) (es : List Event)
    → looked_up k s es ≡ granted_by k s.server.trust_cf_headers s.server.lookup_limit es
unfolding looked_up turns granted answers serve
looked_up-granted k s [] = refl
looked_up-granted k s (refreshes range results ∷ es) =
    looked_up-granted k (serve s (refreshes range results)) es
looked_up-granted k s (marks time ∷ es) =
    let (trust, limit) = mark_loaded-keeps s time in
    looked_up-granted k (serve s (marks time)) es ∙ (λ i. granted_by k (trust i) (limit i) es)
looked_up-granted k s (asks path format w c ∷ es) =
    let trusts = s.server.trust_cf_headers in
    let visitor = visitor_of trusts w c in
    let (trust, limit, shown) = handle-Charges path format s.server w c in
    let rest =
      looked_up-granted k (serve s (asks path format w c)) es
      ∙ (λ i. granted_by k (trust i) (limit i) es) in
    let after = allow s.server.lookup_limit (limiter_key visitor) w.now w.limit_order in
    let q = asks_other trusts w c in
    elim (Bool-cases q) [
      | inl other ↦
          let one : is_look_up (target_of s.server w c) ≡ after.1 =
            shown ∙ ap (λ b. if b then after.1 else false) other in
          let more : looked_up k (serve s (asks path format w c)) es
              ≡ granted_by k trusts after.0 es =
            rest
            ∙ ap (λ b. granted_by k trusts (if b then after.0 else s.server.lookup_limit) es)
                other in
          rw (other, one, more)
            (elim (Bool-cases (text_eq (limiter_key visitor) k)) [
              | inl same ↦ rw same refl
              | inr differs ↦ rw differs (omega arith)
            ])
      | inr own ↦
          let one : is_look_up (target_of s.server w c) ≡ false =
            shown ∙ ap (λ b. if b then after.1 else false) own in
          let more : looked_up k (serve s (asks path format w c)) es
              ≡ granted_by k trusts s.server.lookup_limit es =
            rest
            ∙ ap (λ b. granted_by k trusts (if b then after.0 else s.server.lookup_limit) es) own in
          rw (own, one, more)
            (elim (Bool-cases (text_eq (limiter_key visitor) k)) [
              | inl same ↦ rw same (omega arith)
              | inr differs ↦ rw differs refl
            ])
    ]

-- Whatever visitors ask, with refreshes in between, as long as the requests for look-ups of someone
-- else's address come in the order of their times and none finds 20000 other keys that made one
-- within the minute before it: the visitors with one key are answered at most 30 of them, and one
-- more for each second between the key's first such request and its last.
pub looked_up-budget :
    (trust : Bool) (es : List Event) (k : Text) (first : ℕ) (later : List ℕ)
    → IsCalm (new_rate_limiter 1 30 20_000) 0 [] (turns trust es)
    → times_of k (turns trust es) ≡ first ∷ later
    → looked_up k (start trust) es * second + first ≤ 30 * second + last_time first later
unfolding new_server
looked_up-budget trust es k first later calm times =
    let bound =
      grants-budget 1 30 20_000 k (turns trust es) first later (omega arith) (omega arith) calm
        times in
    omega (arith, bound, looked_up-granted k (start trust) es)
