-- ===== src/Signals.antt =====
-- signals.go: operator names from reverse DNS and from WHOIS answers.
pub mod Slots
pub mod Kept
pub mod Matches
use ip_unt1_com.Prelude.{
  ℕ, Bool, true, false, not, ◌||◌, List, [], ◌∷◌, ◌++◌, Option, none, some, Text, bytes,
  if◌then◌else◌, is_empty, Map, lookup, text_instance, any,
}
use ip_unt1_com.Strings.{to_lower, trim_space, contains_text, has_prefix}
use ip_unt1_com.Net.{Addr, canonical_ip, is_routable}
use ip_unt1_com.Net.Show.{show_addr}

pub record Hint : Type 0 where
  pub needle : Text
  pub label : Text

abbrev hint : Text → Text → Hint
hint needle label = record { needle = needle; label = label }

unfoldable pub rdns_hints : List Hint
rdns_hints =
    hint (bytes ".mullvad.net") (bytes "Mullvad")
    ∷ hint (bytes ".nordvpn.com") (bytes "NordVPN")
    ∷ hint (bytes ".protonvpn.net") (bytes "ProtonVPN")
    ∷ hint (bytes ".surfshark.com") (bytes "Surfshark")
    ∷ hint (bytes ".expressvpn.") (bytes "ExpressVPN")
    ∷ hint (bytes ".privateinternetaccess.com") (bytes "Private Internet Access")
    ∷ hint (bytes ".pia-vpn.") (bytes "Private Internet Access")
    ∷ hint (bytes ".cyberghostvpn.com") (bytes "CyberGhost")
    ∷ hint (bytes ".airvpn.org") (bytes "AirVPN")
    ∷ hint (bytes ".perfect-privacy.com") (bytes "Perfect Privacy")
    ∷ hint (bytes ".windscribe.com") (bytes "Windscribe")
    ∷ hint (bytes ".tunnelbear.com") (bytes "TunnelBear")
    ∷ hint (bytes ".hide.me") (bytes "hide.me")
    ∷ hint (bytes ".torguard.") (bytes "TorGuard")
    ∷ hint (bytes ".ovpn.com") (bytes "OVPN")
    ∷ hint (bytes ".ipvanish.com") (bytes "IPVanish")
    ∷ hint (bytes ".datapacket.com") (bytes "Datapacket (VPN-rental host)")
    ∷ hint (bytes ".m247.com") (bytes "M247 (VPN-rental host)")
    ∷ hint (bytes ".m247.ro") (bytes "M247 (VPN-rental host)")
    ∷ hint (bytes ".cdn77.com") (bytes "CDN77 / Datacamp (VPN-rental host)")
    ∷ hint (bytes ".cdn77.net") (bytes "CDN77 / Datacamp (VPN-rental host)")
    ∷ hint (bytes ".datacamp.co.uk") (bytes "CDN77 / Datacamp (VPN-rental host)")
    ∷ hint (bytes ".choopa.net") (bytes "Choopa / Vultr")
    ∷ hint (bytes ".vultrusercontent.com") (bytes "Vultr")
    ∷ hint (bytes ".internetbolaget.se") (bytes "Internetbolaget (NordVPN/OVPN host)")
    ∷ hint (bytes ".packethub.") (bytes "Packethub (NordVPN host)")
    ∷ []

unfoldable pub whois_brand_hints : List Hint
whois_brand_hints =
    hint (bytes "nordvpn") (bytes "NordVPN")
    ∷ hint (bytes "expressvpn") (bytes "ExpressVPN")
    ∷ hint (bytes "protonvpn") (bytes "ProtonVPN")
    ∷ hint (bytes "surfshark") (bytes "Surfshark")
    ∷ hint (bytes "cyberghost") (bytes "CyberGhost")
    ∷ hint (bytes "mullvad") (bytes "Mullvad")
    ∷ hint (bytes "private internet access") (bytes "Private Internet Access")
    ∷ hint (bytes "privateinternetaccess") (bytes "Private Internet Access")
    ∷ hint (bytes "airvpn") (bytes "AirVPN")
    ∷ hint (bytes "windscribe") (bytes "Windscribe")
    ∷ hint (bytes "perfect privacy") (bytes "Perfect Privacy")
    ∷ hint (bytes "hide.me") (bytes "hide.me")
    ∷ hint (bytes "torguard") (bytes "TorGuard")
    ∷ hint (bytes "hidemyass") (bytes "HideMyAss")
    ∷ hint (bytes "ipvanish") (bytes "IPVanish")
    ∷ hint (bytes "ovpn integritet") (bytes "OVPN")
    ∷ hint (bytes "ovpn ab") (bytes "OVPN")
    ∷ hint (bytes "packethub") (bytes "NordVPN (Packethub)")
    ∷ hint (bytes "datapacket") (bytes "Datapacket (VPN-rental host)")
    ∷ hint (bytes "m247 ltd") (bytes "M247 (VPN-rental host)")
    ∷ []

-- The first hint whose needle the text holds: the loop of both scans.
unfoldable pub first_hint : List Hint → Text → Option Text
first_hint [] s = none
first_hint (h ∷ hs) s =
    let rest = first_hint hs s in if contains_text s h.needle then some h.label else rest

-- `checkRDNSHostname`.
unfoldable pub check_rdns_hostname : Text → Option Text
check_rdns_hostname rdns = if is_empty rdns then none else first_hint rdns_hints (to_lower rdns)

-- `rirServer`.
unfoldable pub rir_server : Map Text Text
rir_server =
    (bytes "arin", bytes "whois.arin.net")
    ∷ (bytes "ripencc", bytes "whois.ripe.net")
    ∷ (bytes "ripe", bytes "whois.ripe.net")
    ∷ (bytes "apnic", bytes "whois.apnic.net")
    ∷ (bytes "lacnic", bytes "whois.lacnic.net")
    ∷ (bytes "afrinic", bytes "whois.afrinic.net")
    ∷ []

-- Nanoseconds.
abbrev pub whois_ttl : ℕ
whois_ttl = 86_400_000_000_000

abbrev pub whois_error_ttl : ℕ
whois_error_ttl = 300_000_000_000

abbrev pub whois_cache_max : ℕ
whois_cache_max = 20_000

abbrev pub whois_max_in_flight : ℕ
whois_max_in_flight = 4

-- The fields that identify a network.
unfoldable pub identity_fields : List Text
identity_fields =
    bytes "netname:"
    ∷ bytes "descr:"
    ∷ bytes "owner:"
    ∷ bytes "ownerid:"
    ∷ bytes "orgname:"
    ∷ bytes "org-name:"
    ∷ bytes "organization:"
    ∷ bytes "remarks:"
    ∷ bytes "customer:"
    ∷ []

-- A line that the scan passes over: blank, a comment, or of another field.
unfoldable pub is_skipped : Text → Bool
is_skipped line =
    is_empty line
    || has_prefix line (b'%' ∷ [])
    || has_prefix line (b'#' ∷ [])
    || not (any (λ f. has_prefix line f) identity_fields)

-- The loop of `queryWhois` over the lines of an answer; the empty text when no brand is named.
unfoldable pub scan_lines : List Text → Text
scan_lines [] = []
scan_lines (l ∷ ls) =
    let line = to_lower (trim_space l) in
    let rest = scan_lines ls in
    if is_skipped line
    then rest
    else elim (first_hint whois_brand_hints line) [ none ↦ rest | some label ↦ label ]

-- What is sent to a server.
unfoldable pub whois_query : Text → Text → Text
whois_query server ip =
    let line = ip ++ 13 ∷ 10 ∷ [] in
    if contains_text server (bytes "arin") then bytes "n + " ++ line else line

-- What a connection gave: nothing, or lines, after which it may have broken off.
pub data WhoisAnswer : Type 0 where
  refused : WhoisAnswer
  lines : List Text → Bool → WhoisAnswer

-- `queryWhois`, over a connection that is given a server and a query.
unfoldable pub query_whois : (Text → Text → WhoisAnswer) → Text → Text → Option Text
query_whois dial server ip = elim (dial server (whois_query server ip)) [
  | refused ↦ none
  | lines ls broke ↦
      let label = scan_lines ls in
      if not (is_empty label) then some label else if broke then none else some []
]

abbrev pub server_for : Text → Text
server_for rir = elim (lookup rir rir_server) [ none ↦ bytes "whois.iana.net" | some s ↦ s ]

-- The computation that `Lookup` hands to its cache, once it holds a slot of the semaphore; with
-- none before the request ends, the answer is empty and is not kept.
unfoldable pub whois_answer : Bool → (Text → Text → WhoisAnswer) → Text → Addr → Text × ℕ
whois_answer false dial rir ip = ([], 0)
whois_answer true dial rir ip = elim (query_whois dial (server_for rir) (show_addr ip)) [
  | none ↦ ([], whois_error_ttl)
  | some label ↦ (label, whois_ttl)
]

-- The cache key of `Lookup`: the announced prefix if there is one, with the registry.
unfoldable pub whois_key : Addr → Text → Text → Text
whois_key ip prefix rir =
    (if is_empty prefix then show_addr ip else prefix) ++ b'|' ∷ to_lower (trim_space rir)

-- `Lookup`; the cache is an argument, from the key, the registry and the address to the label.
unfoldable pub lookup_whois : (Text → Text → Addr → Text) → Addr → Text → Text → Option Text
lookup_whois cached addr prefix rir =
    let ip = canonical_ip addr in
    let label = cached (whois_key ip prefix rir) (to_lower (trim_space rir)) ip in
    if not (is_routable ip) then none else if is_empty label then none else some label
