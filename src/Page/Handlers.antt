-- ===== src/Page/Handlers.antt =====
-- main.go: the handlers. A response has a status, headers and a body; what the program leaves to its
-- libraries, the writing of JSON as text and the templates, stays a value. The cookie of the root
-- page is in Page/Style.
use ip_unt1_com.Prelude.{
  ℕ, Bool, ◌||◌, List, [], ◌∷◌, ◌++◌, Text, bytes, text_eq, if◌then◌else◌, is_empty, Map, insert,
  text_instance,
}
use ip_unt1_com.Strings.{to_lower, equal_fold, contains_text}
use ip_unt1_com.View.{Request, inspect, VerdictView, classify_verdict, IpPart, split_ip_parts}
use ip_unt1_com.Colo.{country_flag}
use ip_unt1_com.Page.{Dataset, Server, World, Call, Gathered, gathered, failed, gather}
use ip_unt1_com.Page.Json.{Json, json_of_dataset, json_of_verdict, json_of_country}
use ip_unt1_com.Page.Texts.{empty_dash, TraceArgs, trace_text, all_text, headers_text}
use ip_unt1_com.Page.Yaml.{yaml_text}

-- What the template of the root page shows.
pub record RootView : Type 0 where
  pub dataset : Dataset
  pub country_flag : Text
  pub colo_flag : Text
  pub verdict : VerdictView
  pub ip_parts : List IpPart

pub data Body : Type 0 where
  plain : Text → Body
  yaml : Text → Body
  encoded : Json → Body
  html : RootView → Body

pub record Response : Type 0 where
  pub status : ℕ
  pub headers : Map Text Text
  pub body : Body

-- `noStore`.
unfoldable pub no_store : Map Text Text → Map Text Text
no_store h =
    insert (bytes "Access-Control-Allow-Origin") (bytes "*")
      (insert (bytes "Cache-Control") (bytes "no-store") h)

abbrev typed : Text → Map Text Text → Map Text Text
typed t h = insert (bytes "Content-Type") t h

abbrev plain_type : Text
plain_type = bytes "text/plain; charset=utf-8"

-- `writeJSON` with the status 200.
unfoldable pub write_json : Json → Response
write_json v = record {
  status = 200;
  headers = no_store (typed (bytes "application/json; charset=utf-8") []);
  body = encoded v;
}

-- What the handlers of plain text write.
unfoldable pub write_plain : Text → Response
write_plain s = record { status = 200; headers = typed plain_type (no_store []); body = plain s }

-- `http.Error`.
unfoldable pub error : ℕ → Text → Response
error status msg = record {
  status = status;
  headers = insert (bytes "X-Content-Type-Options") (bytes "nosniff") (typed plain_type []);
  body = plain (msg ++ 10 ∷ []);
}

-- `data`, and what a handler makes of it.
unfoldable pub answer : (Dataset → Response) → Gathered → Response
unfolding error
answer show (gathered d) = show d
answer show (failed status msg) = error status msg

-- `wantsHTML` and `wantsJSON`.
unfoldable pub wants_html : Request → Bool
wants_html r = contains_text (r.header (bytes "Accept")) (bytes "text/html")

unfoldable pub wants_json : Request → Bool
wants_json r =
    let accept = to_lower (r.header (bytes "Accept")) in
    contains_text accept (bytes "application/json") || contains_text accept (bytes "+json")

abbrev root_view : Dataset → RootView
root_view d = record {
  dataset = d;
  country_flag = country_flag d.country;
  colo_flag = country_flag d.colo_country;
  verdict = classify_verdict d.vpn;
  ip_parts = split_ip_parts d.ip;
}

abbrev line : Text → Response
line s = write_plain (s ++ 10 ∷ [])

-- `handleRoot`, `handleJSON` and `handleCountry`, once they have the dataset.
unfoldable pub show_root : Request → Dataset → Response
unfolding write_plain no_store
show_root r d =
    if wants_html r
    then record {
      status = 200;
      headers = insert (bytes "Referrer-Policy") (bytes "no-referrer") (
          insert (bytes "X-Content-Type-Options") (bytes "nosniff")
            (typed (bytes "text/html; charset=utf-8") (no_store [])));
      body = html (root_view d);
    }
    else line d.ip

unfoldable pub show_json : (ℕ → Bool) → Text → Dataset → Response
unfolding write_plain write_json no_store
show_json is_print format d =
    let f = to_lower format in
    let host = if is_empty d.reverse then bytes "ip.unt1.com" else d.reverse in
    if text_eq f (bytes "yaml") || text_eq f (bytes "yml")
    then record {
      status = 200;
      headers = no_store (typed (bytes "application/yaml; charset=utf-8") []);
      body = yaml (yaml_text is_print d);
    }
    else if text_eq f (bytes "hosts")
    then line (d.ip ++ 9 ∷ host)
    else write_json (json_of_dataset d)

unfoldable pub show_country : Request → Text → Dataset → Response
unfolding write_plain write_json
show_country r format d =
    if wants_json r || equal_fold format (bytes "json")
    then write_json (json_of_country d.ip d.country)
    else line (d.ip ++ (bytes " " ++ empty_dash d.country))

-- `handleVPN` and `handleReverse`.
unfoldable pub show_vpn : Dataset → Response
unfolding write_json
show_vpn d = write_json (json_of_verdict d.vpn)

unfoldable pub show_reverse : Dataset → Response
unfolding write_plain
show_reverse d = line (empty_dash d.reverse)

-- The paths that ask about an address, as `main` routes them.
pub data Route : Type 0 where
  root : Route
  json : Route
  country : Route
  vpn : Route
  trace : TraceArgs → Route
  all : Route
  reverse : Route

unfoldable pub show : (ℕ → Bool) → Route → Request → Text → Dataset → Response
unfolding write_plain
show is_print root r format d = show_root r d
show is_print json r format d = show_json is_print format d
show is_print country r format d = show_country r format d
show is_print vpn r format d = show_vpn d
show is_print (trace a) r format d = write_plain (trace_text a d)
show is_print all r format d = write_plain (all_text d)
show is_print reverse r format d = show_reverse d

-- `handleRoot`, `handleJSON`, `handleCountry`, `handleVPN`, `handleTrace`, `handleAll` and
-- `handleReverse`; `format` is the query's.
unfoldable pub handle : Route → Text → Server → World → Call → Server × Response
handle path format s w c =
    let (s', g) = gather s w c in (s', answer (show w.is_print path c.request format) g)

-- `handleHeaders` and `handleUA`.
unfoldable pub handle_headers : Text → Server → World → Request → Response
unfolding write_plain
handle_headers first s w r =
    write_plain (headers_text first r (inspect w.parse_addr w.host_of s.trust_cf_headers r))

unfoldable pub handle_ua : Request → Response
unfolding write_plain
handle_ua r = line (r.header (bytes "User-Agent"))

-- `/health` always says ok; `/ready` refuses until the lists are loaded.
unfoldable pub handle_health : Response
handle_health = record { status = 200; headers = typed plain_type []; body = plain (bytes "ok\n") }

unfoldable pub handle_ready : Server → Response
handle_ready s =
    if s.snapshot.ready
    then record { status = 200; headers = typed plain_type []; body = plain (bytes "ready\n") }
    else record {
      status = 503;
      headers = typed plain_type [];
      body = plain (bytes "vpn detection lists not loaded\n");
    }
