-- ===== src/Relay.antt =====
-- relay.go: the relay records, and how each provider's feed becomes a list of them. A feed is what
-- `json.Unmarshal` made of the body, or nothing when the download or the decoding failed. How an
-- address is parsed (`netip.ParseAddr`) is an argument.
pub mod Feeds
use ip_unt1_com.Prelude.{
  ℕ, Bool, true, false, not, ◌&&◌, List, [], ◌∷◌, ◌++◌, Option, none, some, Text, bytes,
  if◌then◌else◌, is_empty, map, filter,
}
use ip_unt1_com.Strings.{trim_space, to_upper, to_lower}
use ip_unt1_com.Net.{Addr, is_4, canonical_ip}
use ip_unt1_com.Net.Show.{show_addr}

pub record RelayInfo : Type 0 where
  pub provider : Text
  pub hostname : Text
  pub city : Text
  pub country : Text
  pub host : Text
  pub pop_v4 : Text
  pub pop_v6 : Text
  pub addrs : List Addr

-- " · ", in UTF-8.
abbrev dot : Text
dot = 32 ∷ 0xc2 ∷ 0xb7 ∷ 32 ∷ []

-- The `loc` of `Label`.
unfoldable pub location : RelayInfo → Text
location r =
    let cc = to_upper r.country in
    if is_empty r.country
    then r.city
    else if is_empty r.city
    then cc
    else r.city ++ bytes ", " ++ cc

-- `Label`; a nil record has the empty one.
unfoldable pub label : Option RelayInfo → Text
label none = []
label (some r) =
    let loc = location r in
    if is_empty r.hostname
    then loc
    else if is_empty loc
    then r.hostname
    else r.hostname ++ dot ++ loc

-- `firstNonEmpty`.
unfoldable pub first_non_empty : List Text → Text
first_non_empty [] = []
first_non_empty (v ∷ vals) = let rest = first_non_empty vals in if is_empty v then rest else v

abbrev pub new_relay : Text → Text → Text → Text → Text → RelayInfo
new_relay provider hostname city country host = record {
  provider = provider;
  hostname = hostname;
  city = city;
  country = country;
  host = host;
  pop_v4 = [];
  pop_v6 = [];
  addrs = [];
}

-- The part of `addRelayAddr` on a canonical address.
unfoldable pub add_canonical : RelayInfo → Addr → RelayInfo
add_canonical r a =
    if is_4 a
    then record r {
      addrs = r.addrs ++ a ∷ [];
      pop_v4 = if is_empty r.pop_v4 then show_addr a else r.pop_v4;
    }
    else record r {
      addrs = r.addrs ++ a ∷ [];
      pop_v6 = if is_empty r.pop_v6 then show_addr a else r.pop_v6;
    }

pub record MullvadRelay : Type 0 where
  pub hostname : Text
  pub city : Text
  pub country : Text
  pub provider : Text
  pub ipv4 : Text
  pub ipv6 : Text

pub record NordLocation : Type 0 where
  pub code : Text
  pub city : Text

pub record NordServer : Type 0 where
  pub hostname : Text
  pub station : Text
  pub ipv6_station : Text
  pub locations : List NordLocation

pub record IvpnHost : Type 0 where
  pub hostname : Text
  pub host : Text
  pub isp : Text

pub record IvpnGroup : Type 0 where
  pub city : Text
  pub country : Text
  pub isp : Text
  pub hosts : List IvpnHost

pub record IvpnDoc : Type 0 where
  pub wireguard : List IvpnGroup
  pub openvpn : List IvpnGroup

pub record AirServer : Type 0 where
  pub name : Text
  pub country : Text
  pub city : Text
  pub v4_in1 : Text
  pub v4_in2 : Text
  pub v4_in3 : Text
  pub v4_in4 : Text
  pub v6_in1 : Text
  pub v6_in2 : Text
  pub v6_in3 : Text
  pub v6_in4 : Text

abbrev pub has_addrs : RelayInfo → Bool
has_addrs r = not (is_empty r.addrs)

-- The first location is the one that counts.
abbrev pub located : Text → List NordLocation → RelayInfo
located hostname [] = new_relay (bytes "nordvpn") hostname [] [] []
located hostname (l ∷ ls) = new_relay (bytes "nordvpn") hostname l.city (to_lower l.code) []

module _ (parse_addr : Text → Option Addr) where
  -- `addRelayAddr`.
  unfoldable pub add_relay_addr : RelayInfo → Text → RelayInfo
  add_relay_addr r s = elim (parse_addr (trim_space s)) [
    | none ↦ r
    | some a ↦ add_canonical r (canonical_ip a)
  ]

  unfoldable pub add_relay_addrs : RelayInfo → List Text → RelayInfo
  add_relay_addrs r [] = r
  add_relay_addrs r (s ∷ ss) = add_relay_addrs (add_relay_addr r s) ss

  -- The bodies of the loops, and the loops: relays without an address are left out.
  unfoldable pub mullvad_relay : MullvadRelay → RelayInfo
  mullvad_relay r =
      add_relay_addr
        (add_relay_addr (new_relay (bytes "mullvad") r.hostname r.city r.country r.provider) r.ipv4)
        r.ipv6

  unfoldable pub fetch_mullvad : Option (List MullvadRelay) → Option (List RelayInfo)
  fetch_mullvad none = none
  fetch_mullvad (some raw) = some (filter has_addrs (map mullvad_relay raw))

  unfoldable pub nordvpn_relay : NordServer → RelayInfo
  nordvpn_relay s =
      add_relay_addr (add_relay_addr (located s.hostname s.locations) s.station) s.ipv6_station

  unfoldable pub fetch_nordvpn : Option (List NordServer) → Option (List RelayInfo)
  fetch_nordvpn none = none
  fetch_nordvpn (some raw) = some (filter has_addrs (map nordvpn_relay raw))

  unfoldable pub ivpn_relay : IvpnGroup → IvpnHost → RelayInfo
  ivpn_relay g h =
      add_relay_addr
        (new_relay (bytes "ivpn") h.hostname g.city (to_lower g.country)
          (first_non_empty (h.isp ∷ g.isp ∷ [])))
        h.host

  unfoldable pub ivpn_groups : List IvpnGroup → List RelayInfo
  ivpn_groups [] = []
  ivpn_groups (g ∷ gs) = filter has_addrs (map (ivpn_relay g) g.hosts) ++ ivpn_groups gs

  unfoldable pub fetch_ivpn : Option IvpnDoc → Option (List RelayInfo)
  fetch_ivpn none = none
  fetch_ivpn (some doc) = some (ivpn_groups doc.wireguard ++ ivpn_groups doc.openvpn)

  unfoldable pub airvpn_relay : AirServer → RelayInfo
  airvpn_relay s =
      add_relay_addrs
        (add_relay_addrs (new_relay (bytes "airvpn") s.name s.city (to_lower s.country) [])
          (s.v4_in1 ∷ s.v4_in2 ∷ s.v4_in3 ∷ s.v4_in4 ∷ []))
        (s.v6_in1 ∷ s.v6_in2 ∷ s.v6_in3 ∷ s.v6_in4 ∷ [])

  unfoldable pub fetch_airvpn : Option (List AirServer) → Option (List RelayInfo)
  fetch_airvpn none = none
  fetch_airvpn (some servers) = some (filter has_addrs (map airvpn_relay servers))
