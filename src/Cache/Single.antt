-- ===== src/Cache/Single.antt =====
-- cache.go: a caller of `Do` whom no other one meets, step by step and at once.
use ip_unt1_com.Prelude.{
  ℕ, ◌≡◌, refl, inl, inr, true, List, [], ◌∷◌, none, some, Text, text_eq_refl, text_instance, ◌==◌,
  Option-cases, arith, Map, lookup, insert, delete, ◌∙◌, ap, sym,
}
use ip_unt1_com.Prelude.Int.{ℤ}
use ip_unt1_com.Cache.{
  TtlCache, System, Pc, computing, returned, get, store, evict, enter, finish, close, update,
}
use ip_unt1_com.Cache.Alone.{Times, do_alone}

delete_absent {ℓ} : {V : Type ℓ} (k : Text) (m : Map Text V) → lookup k m ≡ none → delete k m ≡ m
unfolding lookup delete
delete_absent k [] h = refl
delete_absent k ((j, v) ∷ m) h = ground (arith, delete_absent k m)

delete-insert {ℓ} :
    {V : Type ℓ} (k : Text) (v : V) (m : Map Text V)
    → lookup k m ≡ none
    → delete k (insert k v m) ≡ m
unfolding lookup delete insert
delete-insert k v [] h = rw (text_eq_refl k)
delete-insert k v ((j, w) ∷ m) h = ground (arith, delete-insert k v m)

module _ {ℓ} {V : Type ℓ} where
  store-inflight :
      (c : TtlCache V) (calls : Map Text ℕ) (key : Text) (val : V) (ttl : ℤ) (after later : ℕ)
      (order : List Text)
      → store (record c { inflight = calls }) key val ttl after later order
        ≡ record (store c key val ttl after later order) { inflight = calls }
  unfolding store evict
  store-inflight c calls key val ttl after later order = ground arith

  inflight-store :
      (c : TtlCache V) (key : Text) (val : V) (ttl : ℤ) (after later : ℕ) (order : List Text)
      → (store c key val ttl after later order).inflight ≡ c.inflight
  unfolding store evict
  inflight-store c key val ttl after later order = ground arith

  enter_hit :
      (s : System V) (i : ℕ) (key : Text) (now : ℕ) (v : V)
      → get s.cache key now ≡ some v
      → enter s i key now ≡ record s { pc = update s.pc i (returned v) }
  unfolding enter
  enter_hit s i key now v hit = rw (hit, enter)

  enter_first :
      (s : System V) (i : ℕ) (key : Text) (now : ℕ)
      → get s.cache key now ≡ none
      → lookup key s.cache.inflight ≡ none
      → enter s i key now ≡ record s {
        cache = record (s.cache) { inflight = insert key i s.cache.inflight };
        pc = update s.pc i computing;
      }
  unfolding enter
  enter_first s i key now miss free = rw (miss, enter) (rw free)

  abbrev with_calls : TtlCache V → Map Text ℕ → TtlCache V
  with_calls c calls = record c { inflight = calls }

  abbrev cleared_of : Text → TtlCache V → TtlCache V
  cleared_of key c = with_calls c (delete key c.inflight)

  -- What a caller does after it has entered, when no other one moves.
  abbrev go_on : System V → ℕ → Text → Times → V × ℤ → Pc V → System V
  go_on s i key t answer computing =
      close (finish s i key answer.0 answer.1 t.stored t.evicted t.order) i answer.0
  go_on s i key t answer _ = s

  pub run_alone : System V → ℕ → Text → Times → V × ℤ → System V
  run_alone s i key t answer = let s' = enter s i key t.entered in go_on s' i key t answer (s'.pc i)

  -- A caller whom no other one meets, and whose key has no call in flight, leaves the cache as
  -- `do_alone` does and returns the value that it gives.
  pub run_alone-do_alone :
      (s : System V) (i : ℕ) (key : Text) (t : Times) (answer : V × ℤ)
      → lookup key s.cache.inflight ≡ none
      → ((run_alone s i key t answer).cache ≡ (do_alone s.cache key t answer).0)
        × ((run_alone s i key t answer).pc i ≡ returned (do_alone s.cache key t answer).1)
  unfolding run_alone do_alone finish close
  run_alone-do_alone s i key t answer free =
      let own : (i == i) ≡ true = ground arith in
      elim (Option-cases (get s.cache key t.entered)) [
        | inr (v, hit) ↦
            rw (hit, do_alone) (rw (enter_hit s i key t.entered v hit, own) (refl, rw own refl))
        | inl miss ↦
            let calls = insert key i s.cache.inflight in
            let left = store s.cache key answer.0 answer.1 t.stored t.evicted t.order in
            let stored =
              store-inflight s.cache calls key answer.0 answer.1 t.stored t.evicted t.order in
            let cleared : delete key calls ≡ left.inflight =
              delete-insert key i s.cache.inflight free
              ∙ sym (inflight-store s.cache key answer.0 answer.1 t.stored t.evicted t.order) in
            rw (miss, do_alone)
              (rw (enter_first s i key t.entered miss free, own)
                (
                  ap (λ (c : TtlCache V). cleared_of key c) stored
                      ∙ ap (λ m. with_calls left m) cleared,
                  rw own refl,
                ))
      ]
