-- ===== src/Tests/Fetches.antt =====
-- The fetches of a refresh, run: each goroutine sends before those that were launched before it.
use ip_unt1_com.Prelude.{
  ◌≤◌, ◌≡◌, ◌⊎◌, refl, List, [], ◌∷◌, none, some, Text, bytes, map, arith, Map,
}
use ip_unt1_com.Net.{Addr, v4}
use ip_unt1_com.Asn.{no_asn}
use ip_unt1_com.Vpn.{check}
use ip_unt1_com.Snapshot.{FetchResult, refresh, no_data}
use ip_unt1_com.Snapshot.Fetching.{
  jobs, Fetching, launch, send, wg_done, Step, sends, finishes, Reach, here, next,
}
use ip_unt1_com.Snapshot.Fetched.{Reach-counter, check-fetched}
use ip_unt1_com.Service.{new_vpn_db}

abbrev in_order : Map Addr Text → List (Addr × Text)
in_order m = m

abbrev empty_from : Text → FetchResult
empty_from name = record { name = name; payload = no_data; err = none; now = 4 }

abbrev mullvad : FetchResult
mullvad = empty_from (bytes "mullvad")

abbrev nordvpn : FetchResult
nordvpn = empty_from (bytes "nordvpn")

abbrev ivpn : FetchResult
ivpn = record {
  name = bytes "ivpn";
  payload = record no_data { addrs = v4 0x0a000001 ∷ [] };
  err = none;
  now = 6;
}

abbrev airvpn : FetchResult
airvpn = record { name = bytes "airvpn"; payload = no_data; err = some (bytes "timeout"); now = 6 }

abbrev tor : FetchResult
tor = record {
  name = bytes "tor";
  payload = record no_data { addrs = v4 0x0a000001 ∷ [] };
  err = none;
  now = 5;
}

abbrev icloud : FetchResult
icloud = empty_from (bytes "icloud-private-relay")

abbrev results : List FetchResult
results = mullvad ∷ nordvpn ∷ ivpn ∷ airvpn ∷ tor ∷ icloud ∷ []

results-jobs : map (λ r. r.name) results ≡ jobs
unfolding jobs bytes
results-jobs = refl

abbrev all_sent : Fetching
all_sent = record {
  running = [];
  sent = 6;
  channel = icloud ∷ tor ∷ airvpn ∷ ivpn ∷ nordvpn ∷ mullvad ∷ [];
  room = 6;
  counter = 6;
}

all_sent-Reach : Reach results 6 all_sent
unfolding launch send
all_sent-Reach =
    next
      (next
        (next
          (next
            (next
              (next here (
                sends (mullvad ∷ nordvpn ∷ ivpn ∷ airvpn ∷ tor ∷ []) [] icloud refl (omega arith)
                  refl))
              (sends (mullvad ∷ nordvpn ∷ ivpn ∷ airvpn ∷ []) [] tor refl (omega arith) refl))
            (sends (mullvad ∷ nordvpn ∷ ivpn ∷ []) [] airvpn refl (omega arith) refl))
          (sends (mullvad ∷ nordvpn ∷ []) [] ivpn refl (omega arith) refl))
        (sends (mullvad ∷ []) [] nordvpn refl (omega arith) refl))
      (sends ([]) [] mullvad refl (omega arith) refl)

abbrev over : Fetching
over = record all_sent { sent = 0; counter = 0 }

over-Reach : Reach results 12 over
unfolding wg_done
over-Reach =
    next
      (next
        (next
          (next
            (next (next all_sent-Reach (finishes (omega arith) refl)) (finishes (omega arith) refl))
            (finishes (omega arith) refl))
          (finishes (omega arith) refl))
        (finishes (omega arith) refl))
      (finishes (omega arith) refl)

Reach-counter_example : (12 ≤ 12) × ((over.counter ≡ 0) ⊎ ((t : Fetching) × Step over t))
Reach-counter_example = Reach-counter results-jobs over-Reach

check-fetched_example :
    check (refresh in_order new_vpn_db over.channel).0 (v4 0x0a000001) no_asn
    ≡ check (refresh in_order new_vpn_db results).0 (v4 0x0a000001) no_asn
check-fetched_example =
    check-fetched in_order new_vpn_db results-jobs over-Reach refl (v4 0x0a000001) no_asn
