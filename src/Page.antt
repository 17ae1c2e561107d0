-- ===== src/Page.antt =====
-- main.go: what is gathered of a request, and what the handlers answer. What the services say is
-- an argument: the autonomous system of an address, its reverse names, and WHOIS; so are the clock
-- and the orders in which Go ranges over the limiter's map and the set of user agents.
pub mod Rows
pub mod Yaml
pub mod Texts
pub mod Json
pub mod Decoded
pub mod Client
pub mod Fields
pub mod Handlers
pub mod Country
pub mod Lines
pub mod Published
pub mod Reading
pub mod Quoted
pub mod Headers
pub mod Status
pub mod Style
use ip_unt1_com.Prelude.{
  ℕ, Bool, true, false, not, ◌&&◌, ◌||◌, List, [], ◌∷◌, ◌++◌, Option, none, some, Text, bytes,
  text_eq, if◌then◌else◌, is_empty,
}
use ip_unt1_com.Prelude.Int.{ℤ}
use ip_unt1_com.Strings.{to_upper, to_lower, trim_suffix}
use ip_unt1_com.Net.{Addr, is_valid}
use ip_unt1_com.Limit.{RateLimiter}
use ip_unt1_com.Asn.{AsnInfo}
use ip_unt1_com.Relay.{RelayInfo}
use ip_unt1_com.Vpn.{VpnVerdict, VpnSnapshot, check, augment}
use ip_unt1_com.View.{Target, found, refused, Request, RequestInfo, inspect, target_ip, ip_version}
use ip_unt1_com.Colo.{cf_colo, colo_location}
use ip_unt1_com.Hints.{ClientHints, parse_client_hints, pretty}
use ip_unt1_com.Ua.{UaSeenSet, first_seen}
use ip_unt1_com.Ua.Detect.{UaInfo, parse_ua}

pub record Dataset : Type 0 where
  pub ip : Text
  pub version : Text
  pub country : Text
  pub asn : ℤ
  pub as_org : Text
  pub prefix : Text
  pub rir : Text
  pub allocated : Text
  pub reverse : Text
  pub ua : Text
  pub ua_pretty : Text
  pub ua_info : UaInfo
  pub ua_hints : Bool
  pub via : Text
  pub ray : Text
  pub colo : Text
  pub colo_city : Text
  pub colo_country : Text
  pub vpn : VpnVerdict
  pub db_loaded : Text
  pub is_lookup : Bool
  pub req_ip : Text
  pub country_source : Text
  pub pop : Text
  pub pop_city : Text
  pub pop_country : Text
  pub pop_host : Text
  pub pop_v4 : Text
  pub pop_v6 : Text
  pub pop_provider : Text

-- `OtherFamily`.
unfoldable pub other_family : Dataset → Text
other_family d = if text_eq d.version (bytes "v6") then d.pop_v4 else d.pop_v6

-- The part of `server` that requests read and change.
pub record Server : Type 0 where
  pub trust_cf_headers : Bool
  pub snapshot : VpnSnapshot
  pub loaded_at : Text
  pub lookup_limit : RateLimiter
  pub ua_unknown_seen : UaSeenSet
  pub ua_bot_seen : UaSeenSet

-- What the program reads from outside while it answers one request.
pub record World : Type 0 where
  pub parse_addr : Text → Option Addr
  pub host_of : Text → Option Text
  pub asn_of : Addr → AsnInfo
  pub names_of : Addr → List Text
  pub whois_of : Addr → Option (Text → Text → Option Text)
  pub now : ℕ
  pub limit_order : List Text
  pub seen_order : List Text
  pub is_print : ℕ → Bool

-- A request with the address in its path and the one in its query, empty where there is none.
pub record Call : Type 0 where
  pub request : Request
  pub in_path : Text
  pub in_query : Text

abbrev first_name : List Text → Text
first_name [] = []
first_name (n ∷ ns) = trim_suffix n (bytes ".")

-- `lookupReverse`; a failed look-up has no names.
unfoldable pub lookup_reverse : (Addr → List Text) → Addr → Text
lookup_reverse names_of ip = if not (is_valid ip) then [] else first_name (names_of ip)

-- The country of a verdict's relay, empty where there is none.
abbrev pub relay_country : Option RelayInfo → Text
relay_country none = []
relay_country (some r) = r.country

-- The country that is shown, and where it comes from.
unfoldable pub choose_country : Text → Bool → Text → Text → Text × Text
choose_country cf is_lookup registered exit =
    let seen : Text × Text =
      if is_lookup || is_empty cf then (registered, bytes "rir") else (cf, bytes "cf") in
    let chosen : Text × Text = if is_empty exit then seen else (to_upper exit, bytes "relay") in
    if is_empty chosen.0 then ([], []) else chosen

-- `recordUA`: whether a line is written, and the sets of what was written lately.
unfoldable pub record_ua : Server → World → Text → UaInfo → Server × Option Text
record_ua s w raw ua =
    let (bots, fresh_bot) = first_seen s.ua_bot_seen raw w.now w.seen_order in
    let (others, fresh_other) = first_seen s.ua_unknown_seen raw w.now w.seen_order in
    if is_empty raw
    then (s, none)
    else if ua.bot
    then (record s { ua_bot_seen = bots }, if fresh_bot then some (bytes "ua_bot") else none)
    else if is_empty ua.browser
    then (
      record s { ua_unknown_seen = others },
      if fresh_other then some (bytes "ua_unknown") else none,
    )
    else (s, none)

-- The fields that name the VPN exit.
unfoldable pub with_relay : Dataset → Option RelayInfo → Dataset
with_relay d none = d
with_relay d (some r) = record d {
  pop = r.hostname;
  pop_city = r.city;
  pop_country = to_upper r.country;
  pop_host = r.host;
  pop_v4 = r.pop_v4;
  pop_v6 = r.pop_v6;
  pop_provider = r.provider;
}

-- What is known of the address that a request is about.
unfoldable pub verdict_on : VpnSnapshot → World → Addr → VpnVerdict
verdict_on snap w ip =
    let asn = w.asn_of ip in
    augment (check snap ip asn) asn (lookup_reverse w.names_of ip) (w.whois_of ip)

unfoldable pub dataset_of : Server → World → Request → RequestInfo → Addr → Text → Bool → Dataset
dataset_of s w r info ip raw is_lookup =
    let asn = w.asn_of ip in
    let verdict = verdict_on s.snapshot w ip in
    let (country, country_source) =
      choose_country info.country is_lookup asn.country (relay_country verdict.relay) in
    let hints = parse_client_hints r in
    let colo = cf_colo info.cf_ray in
    let (city, colo_cc) = colo_location colo in
    with_relay
      (record {
        ip = raw;
        version = ip_version ip;
        country = country;
        asn = asn.asn;
        as_org = asn.org;
        prefix = asn.prefix;
        rir = to_lower asn.rir;
        allocated = asn.allocated;
        reverse = lookup_reverse w.names_of ip;
        ua = info.ua;
        ua_pretty = pretty hints;
        ua_info = parse_ua info.ua hints;
        ua_hints = not (is_empty hints.brand);
        via = info.via;
        ray = info.cf_ray;
        colo = colo;
        colo_city = city;
        colo_country = colo_cc;
        vpn = verdict;
        db_loaded = s.loaded_at;
        is_lookup = is_lookup;
        req_ip = info.ip_raw;
        country_source = country_source;
        pop = [];
        pop_city = [];
        pop_country = [];
        pop_host = [];
        pop_v4 = [];
        pop_v6 = [];
        pop_provider = [];
      })
      verdict.relay

-- What `gather` returns.
pub data Gathered : Type 0 where
  gathered : Dataset → Gathered
  failed : ℕ → Text → Gathered

-- `gather` after `targetIP`: an error returns at once. The services are functions of the world, so
-- that a call of one whose answer is dropped would not be seen.
unfoldable pub gather_target : Server → World → Request → RequestInfo → Target → Server × Gathered
gather_target s w r info (refused status msg) = (s, failed status msg)
gather_target s w r info (found ip raw is_lookup) =
    let d = dataset_of s w r info ip raw is_lookup in
    ((record_ua s w info.ua d.ua_info).0, gathered d)

-- `gather`.
unfoldable pub gather : Server → World → Call → Server × Gathered
gather s w c =
    let info = inspect w.parse_addr w.host_of s.trust_cf_headers c.request in
    let (limit, target) =
      target_ip w.parse_addr s.lookup_limit info.ip info.ip_raw w.now w.limit_order c.in_path
        c.in_query in
    gather_target (record s { lookup_limit = limit }) w c.request info target
