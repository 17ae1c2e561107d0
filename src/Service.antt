-- ===== src/Service.antt =====
-- main.go and vpn.go: the whole service as the events that change its state, in the order in which
-- they happen: requests, and what the refresh loop does. A request and a refresh are one event
-- each; the loop's `markLoaded` is an event of its own, so that requests come before it as well.
pub mod Caps
pub mod Bounds
pub mod Charges
pub mod Quota
pub mod Ready
use ip_unt1_com.Prelude.{
  ℕ, ◌*◌, Bool, true, false, ◌&&◌, List, [], ◌∷◌, Option, Text, if◌then◌else◌, Map,
}
use ip_unt1_com.Net.{Addr}
use ip_unt1_com.Limit.{new_rate_limiter, second}
use ip_unt1_com.Vpn.{VpnSnapshot}
use ip_unt1_com.Snapshot.{FetchResult, refresh}
use ip_unt1_com.Ua.{new_ua_seen_set}
use ip_unt1_com.Page.{Server, World, Call}
use ip_unt1_com.Page.Handlers.{Route, handle}

-- What `newVPNDB` stores before the first refresh.
unfoldable pub new_vpn_db : VpnSnapshot
new_vpn_db = record {
  sources = [];
  ips = [];
  relays = [];
  ip_nets = [];
  cidrs = record { ranges4 = []; ranges6 = [] };
  ready = false;
}

-- The server that `main` makes.
unfoldable pub new_server : Bool → Server
new_server trust = record {
  trust_cf_headers = trust;
  snapshot = new_vpn_db;
  loaded_at = [];
  lookup_limit = new_rate_limiter 1 30 20_000;
  ua_unknown_seen = new_ua_seen_set 1024 (6 * 3600 * second);
  ua_bot_seen = new_ua_seen_set 1024 (6 * 3600 * second);
}

-- The server, and whether the loop stands between a refresh and its `Ready`.
pub record Service : Type 0 where
  pub server : Server
  pub refreshed : Bool

-- A request, a refresh with what its fetches bring, and the end of a turn of the loop at a time.
pub data Event : Type 0 where
  asks : Route → Text → World → Call → Event
  refreshes : (Map Addr Text → List (Addr × Text)) → List FetchResult → Event
  marks : Text → Event

-- `if d.Ready() { markLoaded() }`.
unfoldable pub mark_loaded : Service → Text → Service
mark_loaded s time =
    if s.refreshed && s.server.snapshot.ready
    then record { server = record s.server { loaded_at = time }; refreshed = false }
    else record s { refreshed = false }

unfoldable pub serve : Service → Event → Service
serve s (asks path format w c) = record s { server = (handle path format s.server w c).0 }
serve s (refreshes range results) = record {
  server = record s.server { snapshot = (refresh range s.server.snapshot results).0 };
  refreshed = true;
}
serve s (marks time) = mark_loaded s time

unfoldable pub serve_all : Service → List Event → Service
serve_all s [] = s
serve_all s (e ∷ es) = serve_all (serve s e) es

abbrev pub start : Bool → Service
start trust = record { server = new_server trust; refreshed = false }
