-- ===== src/Snapshot/Fetching.antt =====
-- vpn.go: the fetches of a refresh, each in a goroutine of its own, in any interleaving.
use ip_unt1_com.Prelude.{ℕ, zero, suc, ◌+◌, ◌-◌, ◌<◌, ◌≡◌, List, [], ◌∷◌, ◌++◌, Text, bytes, length}
use ip_unt1_com.Snapshot.{FetchResult}

-- The names of `relayJobs`, `addrJobs` and `cidrJobs`.
unfoldable pub jobs : List Text
jobs =
    bytes "mullvad"
    ∷ bytes "nordvpn"
    ∷ bytes "ivpn"
    ∷ bytes "airvpn"
    ∷ bytes "tor"
    ∷ bytes "icloud-private-relay"
    ∷ []

-- The goroutines that still fetch, with what each will bring, those that have sent it, the
-- channel with its room, and the counter of the wait group.
pub record Fetching : Type 0 where
  pub running : List FetchResult
  pub sent : ℕ
  pub channel : List FetchResult
  pub room : ℕ
  pub counter : ℕ

-- `make(chan fetchResult, total)`, and `wg.Add(1)` for each goroutine.
unfoldable pub launch : List FetchResult → Fetching
launch rs = record { running = rs; sent = 0; channel = []; room = length rs; counter = length rs }

-- `ch <- fetchResult{…}` of the goroutine between `before` and `after`.
unfoldable pub send : Fetching → List FetchResult → FetchResult → List FetchResult → Fetching
send s before r after = record s {
  running = before ++ after;
  sent = s.sent + 1;
  channel = s.channel ++ r ∷ [];
}

-- `wg.Done()`.
unfoldable pub wg_done : Fetching → Fetching
wg_done s = record s { sent = s.sent - 1; counter = s.counter - 1 }

-- A send waits until there is room in the channel.
pub data Step (s t : Fetching) : Type 0 where
  sends :
      (before after : List FetchResult) (r : FetchResult)
      → s.running ≡ before ++ r ∷ after
      → length s.channel < s.room
      → t ≡ send s before r after
      → Step s t
  finishes : 0 < s.sent → t ≡ wg_done s → Step s t

-- So many steps after the launch of the goroutines.
pub data Reach (rs : List FetchResult) : ℕ → Fetching → Type 0 where
  here : Reach rs zero (launch rs)
  next : {k : ℕ} {s t : Fetching} → Reach rs k s → Step s t → Reach rs (suc k) t
