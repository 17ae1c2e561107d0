-- ===== src/Page/Json.antt =====
-- main.go, vpn.go and relay.go: what `writeJSON` encodes, by the tags of the records' fields. A
-- value is a tree; package encoding/json writes it as text. A field that is tagged `-` has no row.
use ip_unt1_com.Prelude.{
  Bool, true, false, not, ◌&&◌, List, [], ◌∷◌, Option, none, some, Text, bytes, is_empty,
  if◌then◌else◌, ◌==◌,
}
use ip_unt1_com.Prelude.Int.{ℤ, pos, negsuc}
use ip_unt1_com.Relay.{RelayInfo}
use ip_unt1_com.Vpn.{VpnVerdict}
use ip_unt1_com.Page.{Dataset}

mutual
  pub data Json : Type 0 where
    null : Json
    text : Text → Json
    number : ℤ → Json
    truth : Bool → Json
    texts : List Text → Json
    object : Members → Json

  pub data Members : Type 0 where
    end : Members
    member : Text → Json → Members → Members

-- What `omitempty` leaves out: no record is empty, and a pointer is only if it is nil.
unfoldable pub is_zero : Json → Bool
is_zero null = true
is_zero (text s) = is_empty s
is_zero (number (pos n)) = n == 0
is_zero (number (negsuc n)) = false
is_zero (truth b) = not b
is_zero (texts ss) = is_empty ss
is_zero (object ms) = false

-- A field: its name, whether it is tagged `omitempty`, and its value.
abbrev pub Row : Type 0
Row = Text × (Bool × Json)

abbrev always : Text → Json → Row
always k v = (k, (false, v))

abbrev if_any : Text → Json → Row
if_any k v = (k, (true, v))

unfoldable pub members : List Row → Members
members [] = end
members ((k, (omit, v)) ∷ rows) =
    let rest = members rows in if omit && is_zero v then rest else member k v rest

-- `relayInfo`.
unfoldable pub relay_members : RelayInfo → List Row
relay_members r =
    always (bytes "provider") (text r.provider)
    ∷ if_any (bytes "hostname") (text r.hostname)
    ∷ if_any (bytes "city") (text r.city)
    ∷ if_any (bytes "country") (text r.country)
    ∷ if_any (bytes "host") (text r.host)
    ∷ if_any (bytes "pop_v4") (text r.pop_v4)
    ∷ if_any (bytes "pop_v6") (text r.pop_v6)
    ∷ []

unfoldable pub json_of_relay : Option RelayInfo → Json
json_of_relay none = null
json_of_relay (some r) = object (members (relay_members r))

-- `vpnVerdict`.
unfoldable pub verdict_members : VpnVerdict → List Row
verdict_members v =
    always (bytes "vpn") (truth v.vpn)
    ∷ if_any (bytes "hosting") (truth v.hosting)
    ∷ if_any (bytes "tor") (truth v.tor)
    ∷ if_any (bytes "privacy_proxy") (truth v.privacy_proxy)
    ∷ if_any (bytes "provider") (text v.provider)
    ∷ if_any (bytes "network") (text v.network)
    ∷ if_any (bytes "relay") (json_of_relay v.relay)
    ∷ if_any (bytes "reasons") (texts v.reasons)
    ∷ if_any (bytes "source") (text v.source)
    ∷ always (bytes "ready") (truth v.ready)
    ∷ []

unfoldable pub json_of_verdict : VpnVerdict → Json
json_of_verdict v = object (members (verdict_members v))

-- `dataset`.
unfoldable pub dataset_members : Dataset → List Row
dataset_members d =
    always (bytes "ip") (text d.ip)
    ∷ always (bytes "version") (text d.version)
    ∷ always (bytes "country") (text d.country)
    ∷ always (bytes "asn") (number d.asn)
    ∷ always (bytes "asorg") (text d.as_org)
    ∷ if_any (bytes "prefix") (text d.prefix)
    ∷ if_any (bytes "rir") (text d.rir)
    ∷ if_any (bytes "allocated") (text d.allocated)
    ∷ if_any (bytes "reverse") (text d.reverse)
    ∷ if_any (bytes "ua") (text d.ua)
    ∷ if_any (bytes "ua_pretty") (text d.ua_pretty)
    ∷ if_any (bytes "browser") (text d.ua_info.browser)
    ∷ if_any (bytes "browser_version") (text d.ua_info.browser_version)
    ∷ if_any (bytes "engine") (text d.ua_info.engine)
    ∷ if_any (bytes "os") (text d.ua_info.os)
    ∷ if_any (bytes "os_version") (text d.ua_info.os_version)
    ∷ if_any (bytes "device") (text d.ua_info.device)
    ∷ if_any (bytes "ua_hints") (truth d.ua_hints)
    ∷ if_any (bytes "bot") (truth d.ua_info.bot)
    ∷ if_any (bytes "via") (text d.via)
    ∷ if_any (bytes "ray") (text d.ray)
    ∷ if_any (bytes "colo") (text d.colo)
    ∷ if_any (bytes "colo_city") (text d.colo_city)
    ∷ if_any (bytes "colo_country") (text d.colo_country)
    ∷ always (bytes "vpn") (json_of_verdict d.vpn)
    ∷ if_any (bytes "db_loaded") (text d.db_loaded)
    ∷ if_any (bytes "country_source") (text d.country_source)
    ∷ if_any (bytes "pop") (text d.pop)
    ∷ if_any (bytes "pop_city") (text d.pop_city)
    ∷ if_any (bytes "pop_country") (text d.pop_country)
    ∷ if_any (bytes "pop_host") (text d.pop_host)
    ∷ if_any (bytes "pop_v4") (text d.pop_v4)
    ∷ if_any (bytes "pop_v6") (text d.pop_v6)
    ∷ if_any (bytes "pop_provider") (text d.pop_provider)
    ∷ []

unfoldable pub json_of_dataset : Dataset → Json
json_of_dataset d = object (members (dataset_members d))

-- The record of `handleCountry`.
unfoldable pub json_of_country : Text → Text → Json
json_of_country ip country =
    object (members (always (bytes "ip") (text ip) ∷ always (bytes "country") (text country) ∷ []))
