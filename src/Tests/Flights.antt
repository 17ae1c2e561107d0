-- ===== src/Tests/Flights.antt =====
-- The cache, run: two callers for one key.
use ip_unt1_com.Prelude.{
  ℕ, ◌+◌, ◌*◌, ◌≤◌, ◌≡◌, ◌⊎◌, inr, refl, none, ltb, if◌then◌else◌, [], ◌∷◌, some, Text, bytes,
  text_eq, arith, size, lookup, insert, contains, text_instance, text_eq_iff,
}
use ip_unt1_com.Prelude.Int.{pos, pos_part}
use ip_unt1_com.Prelude.Ranging.{Covers}
use ip_unt1_com.Cache.{
  TtlCache, is_positive, computing, closing, System, new_ttl_cache, get, store, enter, finish,
  close, wake,
}
use ip_unt1_com.Cache.Store.{store-size, get-store}
use ip_unt1_com.Cache.Origins.{Reach-returned}
use ip_unt1_com.Cache.Runs.{Run, none_yet, one_more}
use ip_unt1_com.Cache.Drains.{AllBelow, HasReturned, CanStep, Run-returned}
use ip_unt1_com.Cache.Flight.{
  Step, enters, finishes, closes, wakes, start, Reach, here, next, Reach-single_flight,
  Reach-waiting,
}

abbrev key_a : Text
key_a = bytes "a"

abbrev key_b : Text
key_b = bytes "b"

abbrev job : ℕ → Text
job i = key_a

abbrev first_in : System ℕ
first_in = enter (start 2) 0 key_a 5

abbrev second_in : System ℕ
second_in = enter first_in 1 key_a 6

both_in : Reach job 2 second_in
unfolding enter get lookup new_ttl_cache
both_in = next (next here (enters 0 5 refl refl)) (enters 1 6 refl refl)

abbrev first_caller : ℕ
first_caller = 0

Reach-single_flight_example : first_caller ≡ first_caller
unfolding enter get lookup insert text_eq new_ttl_cache bytes
Reach-single_flight_example =
    Reach-single_flight job first_caller first_caller both_in refl refl refl

Reach-waiting_example :
    (job 0 ≡ job 1)
    × ((second_in.pc 0 ≡ computing)
        ⊎ ((v : ℕ) × (second_in.call_val 0 ≡ some v)
            × ((second_in.pc 0 ≡ closing v) ⊎ Step job second_in (wake second_in 1 v))))
unfolding enter get lookup insert text_eq bytes new_ttl_cache
Reach-waiting_example = Reach-waiting job 1 0 both_in refl

abbrev full : TtlCache ℕ
full = record { entries = (key_a, record { val = 1; expires = 100 }) ∷ []; inflight = []; max = 1 }

full-Covers :
    Covers
      (key_b ∷ key_a ∷ [])
      (insert key_b (record { val = 2; expires = 10 + pos_part (pos 50) }) full.entries)
unfolding contains insert text_eq bytes
full-Covers k h = ground (arith, text_eq_iff key_a k, text_eq_iff key_b k)

store-size_example : size (store full key_b 2 (pos 50) 10 11 (key_b ∷ key_a ∷ [])).entries ≤ 1
store-size_example =
    store-size full key_b 2 (pos 50) 10 11 (key_b ∷ key_a ∷ []) (omega arith) full-Covers
      (omega arith)

abbrev roomy : TtlCache ℕ
roomy = record full { max = 2 }

get-store_example : get (store roomy key_b 2 (pos 50) 10 11 []) key_b 40 ≡ (
    if is_positive (pos 50)
    then if text_eq key_b key_b
      then if ltb 40 (10 + pos_part (pos 50)) then some 2 else none
      else get roomy key_b 40
    else get roomy key_b 40)
unfolding insert text_eq bytes
get-store_example = get-store roomy key_b key_b 2 (pos 50) 10 11 40 [] (inr (omega arith))

-- The first caller computes 9, and the second takes it.
abbrev computed : System ℕ
computed = finish second_in 0 key_a 9 (pos 50) 7 8 []

abbrev woken : System ℕ
woken = wake (close computed 0 9) 1 9

woken-Reach : Reach job 2 woken
unfolding enter get lookup insert text_eq bytes new_ttl_cache finish close
woken-Reach =
    next (next (next both_in (finishes 0 9 (pos 50) 7 8 [] refl refl)) (closes 0 9 refl refl))
      (wakes 1 0 9 refl refl refl refl)

Reach-returned_example : (j : ℕ) × (job j ≡ job 1) × (woken.call_val j ≡ some 9)
unfolding wake
Reach-returned_example = Reach-returned job 1 9 woken-Reach refl

woken-Run : Run job 2 2 5 woken
unfolding enter get lookup insert text_eq bytes new_ttl_cache finish close
woken-Run =
    one_more
      (one_more
        (one_more
          (one_more (one_more none_yet (enters 0 5 refl refl) (omega arith)) (enters 1 6 refl refl)
            (omega arith))
          (finishes 0 9 (pos 50) 7 8 [] refl refl) (omega arith))
        (closes 0 9 refl refl) (omega arith))
      (wakes 1 0 9 refl refl refl refl) (omega arith)

Run-returned_example :
    (5 ≤ 3 * 2) × (AllBelow (λ i. HasReturned job (woken.pc i)) 2 ⊎ CanStep job 2 woken)
Run-returned_example = Run-returned job woken-Run 9
