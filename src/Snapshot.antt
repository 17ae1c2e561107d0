-- ===== src/Snapshot.antt =====
-- vpn.go: how a refresh merges the fetched feeds into the previous data, and how the indexes that
-- `Check` reads are derived from it. The fetches run at once; a refresh takes their results as a
-- list, in the order in which they arrive. The order in which Go ranges over the addresses is an
-- argument.
pub mod Listing
pub mod Nets
pub mod Refresh
pub mod Verdict
pub mod Egress
pub mod NameOrder
pub mod Same
pub mod Arrival
pub mod Fetching
pub mod Orders
pub mod Fetched
use ip_unt1_com.Prelude.{
  ℕ, Bool, true, false, not, ◌&&◌, List, [], ◌∷◌, ◌++◌, Option, none, some, Text, bytes, text_eq,
  if◌then◌else◌, is_empty, Map, lookup, insert, delete, keys, text_instance, ltb, ◌==◌, length,
  take, ◌/◌, ◌+◌, ◌≤◌, map,
}
use ip_unt1_com.Strings.{split, trim_space, has_prefix, index_byte}
use ip_unt1_com.Net.{Addr, Prefix, canonical_ip}
use ip_unt1_com.Net.Equality.{addr_instance, prefix_instance}
use ip_unt1_com.Index.{CidrEntry, build_cidr_index}
use ip_unt1_com.Relay.{RelayInfo}
use ip_unt1_com.Vpn.{SourceData, source_is_empty, VpnSnapshot, net_prefix_for_ip}

-- `sort.Strings`, on bytes.
unfoldable pub text_less : Text → Text → Bool
text_less s [] = false
text_less [] (y ∷ ys) = true
text_less (x ∷ xs) (y ∷ ys) =
    let rest = text_less xs ys in if ltb x y then true else if ltb y x then false else rest

unfoldable pub insert_name : Text → List Text → List Text
insert_name s [] = s ∷ []
insert_name s (t ∷ ts) =
    let rest = insert_name s ts in if text_less t s then t ∷ rest else s ∷ t ∷ ts

unfoldable pub sort_names : List Text → List Text
sort_names [] = []
sort_names (s ∷ ss) = insert_name s (sort_names ss)

abbrev pub no_data : SourceData
no_data = record { relays = []; addrs = []; cidrs = []; fetched = 0 }

-- Go's `sources[name]`, with the zero value for a missing key.
abbrev pub data_or_empty : Option SourceData → SourceData
data_or_empty none = no_data
data_or_empty (some s) = s

abbrev pub source_of : Text → Map Text SourceData → SourceData
source_of name sources = data_or_empty (lookup name sources)

-- The two maps from addresses that the snapshot fills.
pub record Tables : Type 0 where
  pub ips : Map Addr Text
  pub relays : Map Addr RelayInfo

-- `for _, a := range rel.addrs`.
unfoldable pub add_relay_entries : Tables → RelayInfo → List Addr → Tables
add_relay_entries t rel [] = t
add_relay_entries t rel (a ∷ as') =
    add_relay_entries (record { ips = insert a rel.provider t.ips; relays = insert a rel t.relays })
      rel as'

unfoldable pub add_relays : Tables → List RelayInfo → Tables
add_relays t [] = t
add_relays t (rel ∷ rels) = add_relays (add_relay_entries t rel rel.addrs) rels

-- The first loop over the names, as far as it fills the tables.
unfoldable pub add_sources : Map Text SourceData → Tables → List Text → Tables
add_sources sources t [] = t
add_sources sources t (name ∷ names) =
    add_sources sources (add_relays t (source_of name sources).relays) names

unfoldable pub cidr_entries : Map Text SourceData → List Text → List CidrEntry
cidr_entries sources [] = []
cidr_entries sources (name ∷ names) =
    map (λ p. record { prefix = p; provider = name }) (source_of name sources).cidrs
    ++ cidr_entries sources names

unfoldable pub any_loaded : Map Text SourceData → List Text → Bool
any_loaded sources [] = false
any_loaded sources (name ∷ names) =
    let rest = any_loaded sources names in
    if not (source_is_empty (source_of name sources)) then true else rest

-- The second loop: an address feed overrides what the relay feeds say.
unfoldable pub mark_addrs : Text → Tables → List Addr → Tables
mark_addrs name t [] = t
mark_addrs name t (a ∷ as') =
    let c = canonical_ip a in
    mark_addrs name (record { ips = insert c name t.ips; relays = delete c t.relays }) as'

unfoldable pub mark_sources : Map Text SourceData → Tables → List Text → Tables
mark_sources sources t [] = t
mark_sources sources t (name ∷ names) =
    mark_sources sources (mark_addrs name t (source_of name sources).addrs) names

-- One turn of the loop that derives the neighbourhoods.
unfoldable pub derive_step : Map Prefix Text → Addr → Text → Map Prefix Text
derive_step nets ip provider =
    if text_eq provider (bytes "tor") then nets else elim (net_prefix_for_ip ip) [
      | none ↦ nets
      | some pfx ↦ elim (lookup pfx nets) [
        | none ↦ insert pfx provider nets
        | some existing ↦
            if text_eq existing provider then nets else insert pfx (bytes "multi") nets
      ]
    ]

unfoldable pub derive_nets : Map Prefix Text → List (Addr × Text) → Map Prefix Text
derive_nets nets [] = nets
derive_nets nets ((ip, provider) ∷ rest) = derive_nets (derive_step nets ip provider) rest

abbrev pub no_tables : Tables
no_tables = record { ips = []; relays = [] }

unfoldable pub build_tables : Map Text SourceData → List Text → Tables
build_tables sources names = mark_sources sources (add_sources sources no_tables names) names

-- `buildSnapshot`; `range` is the order in which the addresses are visited.
unfoldable pub build_snapshot :
    (Map Addr Text → List (Addr × Text)) → Map Text SourceData → VpnSnapshot
build_snapshot range sources =
    let names = sort_names (keys sources) in
    let t = build_tables sources names in
    record {
      sources = sources;
      ips = t.ips;
      relays = t.relays;
      ip_nets = derive_nets [] (range t.ips);
      cidrs = build_cidr_index (cidr_entries sources names);
      ready = any_loaded sources names;
    }

-- `fetchResult`, with the time at which it is handled.
pub record FetchResult : Type 0 where
  pub name : Text
  pub payload : SourceData
  pub err : Option Text
  pub now : ℕ

pub record Merged : Type 0 where
  pub sources : Map Text SourceData
  pub errs : List Text
  pub fresh : ℕ

-- One turn of `for r := range ch`.
unfoldable pub merge_result : Merged → FetchResult → Merged
merge_result m r = elim r.err [
  | some e ↦ record m { errs = m.errs ++ e ∷ [] }
  | none ↦
      if source_is_empty r.payload
      then record m { errs = m.errs ++ (r.name ++ bytes ": empty payload") ∷ [] }
      else record m {
        sources = insert r.name (record r.payload { fetched = r.now }) m.sources;
        fresh = m.fresh + 1;
      }
]

unfoldable pub merge_results : Merged → List FetchResult → Merged
merge_results m [] = m
merge_results m (r ∷ rs) = merge_results (merge_result m r) rs

-- `refresh`: the new snapshot, and the errors where no feed loaded.
unfoldable pub refresh :
    (Map Addr Text → List (Addr × Text))
    → VpnSnapshot
    → List FetchResult
    → VpnSnapshot × Option (List Text)
refresh range prev results =
    let m = merge_results (record { sources = prev.sources; errs = []; fresh = 0 }) results in
    (
      build_snapshot range m.sources,
      if m.fresh == 0 then (if is_empty m.errs then none else some m.errs) else none,
    )

-- `get`, from the response: its status and body.
unfoldable pub get : ℕ → ℕ → Text → Option Text
get limit status body =
    let read = take (limit + 1) body in
    if not (status / 100 == 2) then none else if ltb limit (length read) then none else some read

module _ (parse_addr : Text → Option Addr) (parse_prefix : Text → Option Prefix) where
  -- The loop of `fetchTor`.
  unfoldable pub tor_lines : List Text → List Addr
  tor_lines [] = []
  tor_lines (l ∷ ls) =
      let line = trim_space l in
      let rest = tor_lines ls in
      if is_empty line
      then rest
      else if has_prefix line (bytes "#")
      then rest
      else elim (parse_addr line) [ none ↦ rest | some a ↦ a ∷ rest ]

  unfoldable pub fetch_tor : Option Text → Option (List Addr)
  fetch_tor none = none
  fetch_tor (some body) = some (tor_lines (split body 10))

  -- The field before the first comma.
  abbrev before_comma : Text → Text
  before_comma s = elim (index_byte s b',') [ none ↦ s | some i ↦ take i s ]

  -- The loop of `fetchICloudPrivateRelay`; cutting the body at each newline is a split, whose
  -- last, empty line is skipped like every empty line.
  unfoldable pub prefix_lines : List Text → List Prefix
  prefix_lines [] = []
  prefix_lines (l ∷ ls) =
      let s = trim_space l in
      let rest = prefix_lines ls in
      if is_empty s
      then rest
      else if has_prefix s (bytes "#")
      then rest
      else elim (parse_prefix (before_comma s)) [ none ↦ rest | some p ↦ p ∷ rest ]

  unfoldable pub fetch_icloud_private_relay : Option Text → Option (List Prefix)
  fetch_icloud_private_relay none = none
  fetch_icloud_private_relay (some body) = some (prefix_lines (split body 10))
