-- ===== src/Service/Ready.antt =====
-- main.go, vpn.go: whether the lists are loaded, through the events of the service.
use ip_unt1_com.Prelude.{
  ◌≡◌, refl, inl, inr, Bool, true, false, List, [], ◌∷◌, Text, is_empty, Bool-cases, Map, lookup,
  text_instance, arith, ap, ◌∙◌, ◌==◌, subst, sym, ◌&&◌,
}
use ip_unt1_com.Vpn.{VpnSnapshot, SourceData}
use ip_unt1_com.Snapshot.{refresh, build_snapshot, any_loaded, FetchResult}
use ip_unt1_com.Snapshot.Refresh.{loaded, refresh-ready}
use ip_unt1_com.Page.{Server, World, Call, gather, gather_target, record_ua, dataset_of}
use ip_unt1_com.Page.Handlers.{handle, handle_ready, Route}
use ip_unt1_com.View.{Target, found, refused, RequestInfo, Request, inspect}
use ip_unt1_com.Ua.Detect.{UaInfo}
use ip_unt1_com.Net.{Addr}
use ip_unt1_com.Page.Status.{target_of}
use ip_unt1_com.Service.{
  Service, Event, asks, refreshes, marks, mark_loaded, serve, serve_all, start, new_server,
  new_vpn_db,
}

-- Some feed of the snapshot holds data.
HasData : VpnSnapshot → Type 0
HasData snap = (name : Text) × (loaded (lookup name snap.sources) ≡ true)

HasData-any_loaded :
    (sources : Map Text SourceData) (names : List Text)
    → any_loaded sources names ≡ true
    → (name : Text) × (loaded (lookup name sources) ≡ true)
unfolding any_loaded
HasData-any_loaded sources [] h = absurd (ground arith)
HasData-any_loaded sources (n ∷ names) h = elim (Bool-cases (loaded (lookup n sources))) [
  | inl here ↦ (n, here)
  | inr gone ↦ HasData-any_loaded sources names (ground arith)
]

HasData-refresh :
    (range : Map Addr Text → List (Addr × Text)) (prev : VpnSnapshot) (results : List FetchResult)
    → (refresh range prev results).0.ready ≡ true
    → HasData (refresh range prev results).0
unfolding refresh build_snapshot HasData
HasData-refresh range prev results h = HasData-any_loaded _ _ h

-- A snapshot that says ready has data; the loading time is set only when it says so.
record IsSound (s : Service) : Type 0 where
  backed : s.server.snapshot.ready ≡ true → HasData s.server.snapshot
  dated : is_empty s.server.loaded_at ≡ false → s.server.snapshot.ready ≡ true

-- A request touches neither the snapshot nor the loading time.
abbrev IsKept : Server → Server → Type 0
IsKept s t = (t.snapshot ≡ s.snapshot) × (t.loaded_at ≡ s.loaded_at)

record_ua-IsKept :
    (s : Server) (w : World) (raw : Text) (ua : UaInfo) → IsKept s (record_ua s w raw ua).0
unfolding record_ua
record_ua-IsKept s w raw ua = ground arith

gather_target-IsKept :
    (s : Server) (w : World) (r : Request) (info : RequestInfo) (t : Target)
    → IsKept s (gather_target s w r info t).0
unfolding gather_target
gather_target-IsKept s w r info (found ip raw is_lookup) =
    record_ua-IsKept s w info.ua (dataset_of s w r info ip raw is_lookup).ua_info
gather_target-IsKept s w r info (refused status msg) = (refl, refl)

handle-IsKept :
    (path : Route) (format : Text) (s : Server) (w : World) (c : Call)
    → IsKept s (handle path format s w c).0
unfolding handle gather
handle-IsKept path format s w c =
    gather_target-IsKept _ w c.request (inspect w.parse_addr w.host_of s.trust_cf_headers c.request)
      (target_of s w c)

-- What an event does to a sound service.
record IsNext (s t : Service) : Type 0 where
  sound : IsSound t
  stays : s.server.snapshot.ready ≡ true → t.server.snapshot.ready ≡ true

serve-IsNext : (s : Service) (e : Event) → IsSound s → IsNext s (serve s e)
unfolding serve mark_loaded HasData
serve-IsNext s (asks path format w c) h =
    let kept = handle-IsKept path format s.server w c in
    let same = ap (λ (v : VpnSnapshot). v.ready) kept.0 in
    record {
      sound = record {
        backed = λ r. subst HasData (sym kept.0) (h.backed (ground (arith, r, same)));
        dated = λ d. ground (arith, h.dated, kept, same, d);
      };
      stays = λ r. ground (arith, r, same);
    }
serve-IsNext s (refreshes range results) h =
    let t = (refresh range s.server.snapshot results).0 in
    let stays : s.server.snapshot.ready ≡ true → t.ready ≡ true =
      λ r. let d = h.backed r in refresh-ready range s.server.snapshot results d.0 d.1 in
    record {
      sound = record {
        backed = λ r. HasData-refresh range s.server.snapshot results r;
        dated = λ d. stays (h.dated d);
      };
      stays = stays;
    }
serve-IsNext s (marks time) h = elim (Bool-cases (s.refreshed && s.server.snapshot.ready)) [
  | inl yes_loaded ↦
      rw (yes_loaded, mark_loaded)
        (record {
          sound = record { backed = h.backed; dated = λ d. ground (arith, yes_loaded) };
          stays = λ r. r;
        })
  | inr not_loaded ↦
      rw (not_loaded, mark_loaded)
        (record { sound = record { backed = h.backed; dated = h.dated }; stays = λ r. r })
]

start-IsSound : (trust : Bool) → IsSound (start trust)
unfolding new_server new_vpn_db
start-IsSound trust = record {
  backed = λ r. absurd (ground arith);
  dated = λ d. absurd (ground arith);
}

serve_all-IsNext : (s : Service) (es : List Event) → IsSound s → IsNext s (serve_all s es)
unfolding serve_all
serve_all-IsNext s [] h = record { sound = h; stays = λ r. r }
serve_all-IsNext s (e ∷ es) h =
    let one = serve-IsNext s e h in
    let rest = serve_all-IsNext (serve s e) es one.sound in
    record { sound = rest.sound; stays = λ r. rest.stays (one.stays r) }

abbrev pub is_ok : Server → Bool
is_ok s = (handle_ready s).status == 200

is_ok-ready : (s : Server) → is_ok s ≡ s.snapshot.ready
unfolding handle_ready
is_ok-ready s = ground arith

-- Through any events in any order, requests between a refresh and its `markLoaded` included: once
-- `/ready` has answered 200, from the start of the service on, it answers 200 after whatever comes
-- next, failed refreshes included.
pub is_ok-serve_all :
    (trust : Bool) (es fs : List Event)
    → is_ok (serve_all (start trust) es).server ≡ true
    → is_ok (serve_all (serve_all (start trust) es) fs).server ≡ true
is_ok-serve_all trust es fs r =
    let s = serve_all (start trust) es in
    let before = serve_all-IsNext (start trust) es (start-IsSound trust) in
    let after = serve_all-IsNext s fs before.sound in
    is_ok-ready (serve_all s fs).server ∙ after.stays (sym (is_ok-ready s.server) ∙ r)

-- A loading time is shown only where the lists are loaded.
pub is_ok-loaded_at :
    (trust : Bool) (es : List Event)
    → is_empty (serve_all (start trust) es).server.loaded_at ≡ false
    → is_ok (serve_all (start trust) es).server ≡ true
is_ok-loaded_at trust es d =
    let s = serve_all (start trust) es in
    is_ok-ready s.server ∙ (serve_all-IsNext (start trust) es (start-IsSound trust)).sound.dated d
