-- ===== src/View.antt =====
-- main.go: which address a request is about, and how texts and verdicts are put into words. What a
-- request carries is an argument: the address in its path, the one in its query, and the visitor's.
pub mod Requests
pub mod Words
use ip_unt1_com.Prelude.{
  ℕ, Bool, true, false, not, ◌&&◌, ◌||◌, List, [], ◌∷◌, ◌++◌, Option, none, some, Text, bytes,
  text_eq, if◌then◌else◌, is_empty, ltb, leb, ◌==◌, length, take,
}
use ip_unt1_com.Strings.{split, onto_head, trim_space, contains_text}
use ip_unt1_com.Net.{Addr, invalid, is_valid, is_4, is_4in6, canonical_ip, is_routable}
use ip_unt1_com.Net.Show.{show_addr}
use ip_unt1_com.Net.Equality.{addr_eq}
use ip_unt1_com.Limit.{RateLimiter, allow, limiter_key}
use ip_unt1_com.Relay.{first_non_empty}
use ip_unt1_com.Vpn.{VpnVerdict}

-- `truncate`; the ellipsis in UTF-8.
unfoldable pub truncate : Text → ℕ → Text
truncate s n = if leb (length s) n then s else take n s ++ 0xe2 ∷ 0x80 ∷ 0xa6 ∷ []

-- What `targetIP` returns: an address, its text and whether it is looked up for someone else, or
-- an error with its status.
pub data Target : Type 0 where
  found : Addr → Text → Bool → Target
  refused : ℕ → Text → Target

abbrev limited : Target
limited = refused 429 (bytes "too many third-party lookups; slow down")

-- The end of `targetIP`, for a routable address in canonical form.
unfoldable pub target_allowed : RateLimiter → Addr → ℕ → List Text → Addr → RateLimiter × Target
target_allowed l visitor now order addr =
    let (l', ok) = allow l (limiter_key visitor) now order in
    if addr_eq addr visitor
    then (l, found addr (show_addr addr) false)
    else if ok
    then (l', found addr (show_addr addr) true)
    else (l', limited)

-- The part of `targetIP` on a text that the request names, with what it was parsed as.
unfoldable pub target_named :
    RateLimiter → Addr → ℕ → List Text → Text → Option Addr → RateLimiter × Target
target_named l visitor now order override none =
    (l, refused 400 (bytes "not an IP address: " ++ truncate override 64))
target_named l visitor now order override (some a) =
    let addr = canonical_ip a in
    if not (is_routable addr)
    then (l, refused 400 (show_addr addr ++ bytes " is not a globally routable address"))
    else target_allowed l visitor now order addr

module _ (parse_addr : Text → Option Addr) where
  -- `targetIP`.
  unfoldable pub target_ip :
      RateLimiter → Addr → Text → ℕ → List Text → Text → Text → RateLimiter × Target
  target_ip l visitor visitor_raw now order in_path in_query =
      let path = trim_space in_path in
      let override = if is_empty path then trim_space in_query else path in
      if is_empty override
      then (l, found visitor visitor_raw false)
      else target_named l visitor now order override (parse_addr override)

pub record RequestInfo : Type 0 where
  pub ip : Addr
  pub ip_raw : Text
  pub country : Text
  pub ua : Text
  pub cf_ray : Text
  pub host : Text
  pub via : Text
  pub remote_addr : Text

-- What a request carries: its header by name, its host and the address of its peer.
pub record Request : Type 0 where
  pub header : Text → Text
  pub host : Text
  pub remote_addr : Text

-- What the headers of Cloudflare say, where they are trusted.
unfoldable pub read_cf : Request → RequestInfo → RequestInfo
read_cf r info =
    let v = trim_space (r.header (bytes "CF-Connecting-IP")) in
    let seen = if is_empty v then info else record info { ip_raw = v; via = bytes "caddy+cf" } in
    record seen {
      country = trim_space (r.header (bytes "CF-IPCountry"));
      cf_ray = trim_space (r.header (bytes "CF-Ray"));
    }

-- The address without those headers; `host_of` is `net.SplitHostPort`.
unfoldable pub peer_ip : (Text → Option Text) → Request → Text
peer_ip host_of r =
    let v = trim_space (r.header (bytes "X-Real-IP")) in
    let peer : Text = elim (host_of r.remote_addr) [ some h ↦ h | none ↦ r.remote_addr ] in
    if is_empty v then peer else v

-- The end of `inspect`: what the text was parsed as.
unfoldable pub identified : RequestInfo → Option Addr → RequestInfo
identified info none = info
identified info (some a) = record info { ip = canonical_ip a; ip_raw = show_addr (canonical_ip a) }

-- `inspect`.
unfoldable pub inspect : (Text → Option Addr) → (Text → Option Text) → Bool → Request → RequestInfo
inspect parse_addr host_of trust r =
    let blank : RequestInfo = record {
      ip = invalid;
      ip_raw = [];
      country = [];
      ua = r.header (bytes "User-Agent");
      cf_ray = [];
      host = r.host;
      via = bytes "direct";
      remote_addr = r.remote_addr;
    } in
    let read = if trust then read_cf r blank else blank in
    let info = if is_empty read.ip_raw then record read { ip_raw = peer_ip host_of r } else read in
    identified info (parse_addr info.ip_raw)

-- `splitTopLevel`; the first argument says whether the place is inside quotes.
unfoldable pub split_from : Bool → Text → ℕ → List Text
split_from inside [] sep = [] ∷ []
split_from inside (c ∷ s) sep =
    let flipped = split_from (not inside) s sep in
    let rest = split_from inside s sep in
    if c == 34
    then onto_head c flipped
    else if c == sep && not inside
    then [] ∷ rest
    else onto_head c rest

unfoldable pub split_top_level : Text → ℕ → List Text
split_top_level s sep = split_from false s sep

pub record IpPart : Type 0 where
  pub sep : Bool
  pub v : Text

-- The separators between the segments.
unfoldable pub interleave : ℕ → List Text → List IpPart
interleave c [] = []
interleave c (p ∷ []) = record { sep = false; v = p } ∷ []
interleave c (p ∷ q ∷ ps) =
    record { sep = false; v = p } ∷ record { sep = true; v = c ∷ [] } ∷ interleave c (q ∷ ps)

-- `splitIPParts`.
unfoldable pub split_ip_parts : Text → List IpPart
split_ip_parts ip =
    let c = if contains_text ip (bytes ":") then b':' else b'.' in
    if is_empty ip then [] else interleave c (split ip c)

-- `ipVersion`.
unfoldable pub ip_version : Addr → Text
ip_version a =
    if not (is_valid a) then [] else if is_4 a || is_4in6 a then bytes "v4" else bytes "v6"

unfoldable pub provider_label : Text → Text
provider_label k =
    if text_eq k (bytes "mullvad")
    then bytes "Mullvad"
    else if text_eq k (bytes "nordvpn")
    then bytes "NordVPN"
    else if text_eq k (bytes "ivpn")
    then bytes "iVPN"
    else if text_eq k (bytes "airvpn")
    then bytes "AirVPN"
    else if text_eq k (bytes "icloud-private-relay")
    then bytes "iCloud Private Relay"
    else k

-- The cases of `sourceLabel`.
unfoldable pub source_words : List (Text × Text)
source_words =
    (bytes "ip-list", bytes "matched published server IP")
    ∷ (bytes "ip-prefix", bytes "in published VPN provider's prefix")
    ∷ (bytes "asn", bytes "matched VPN-rental ASN")
    ∷ (bytes "asn-hosting", bytes "matched datacenter ASN")
    ∷ (bytes "asn+ip-list", bytes "matched server IP + datacenter ASN")
    ∷ (bytes "cidr", bytes "matched egress CIDR")
    ∷ (bytes "rdns", bytes "rDNS matches VPN provider")
    ∷ (bytes "whois", bytes "WHOIS identifies VPN provider")
    ∷ []

unfoldable pub word_for : Text → List (Text × Text) → Option Text
word_for s [] = none
word_for s ((k, w) ∷ ws) = let rest = word_for s ws in if text_eq s k then some w else rest

-- `sourceLabel`.
unfoldable pub source_label : Text → Text
source_label s = elim (word_for s source_words) [
  | some w ↦ w
  | none ↦ if contains_text s (bytes "+") then bytes "multiple sources: " ++ s else s
]

pub record VerdictView : Type 0 where
  pub tone : Text
  pub stamp : Text
  pub what : Text
  pub src : Text

abbrev view_of : Text → Text → Text → Text → VerdictView
view_of tone stamp what src = record { tone = tone; stamp = stamp; what = what; src = src }

-- `classifyVerdict`.
unfoldable pub classify_verdict : VpnVerdict → VerdictView
classify_verdict v =
    let name = provider_label v.provider in
    let shown =
      if is_empty name
      then first_non_empty (v.network ∷ bytes "Hosting / VPN network" ∷ [])
      else name in
    if v.tor
    then view_of (bytes "warn") (bytes "Tor") (bytes "Tor exit relay") (bytes "tor exit list")
    else if v.privacy_proxy
    then view_of (bytes "warn") (bytes "Private Relay") (bytes "iCloud Private Relay egress")
        (bytes "apple egress cidr")
    else if v.vpn
    then view_of (bytes "bad") (bytes "VPN") shown (source_label v.source)
    else if v.hosting
    then view_of (bytes "warn") (bytes "Hosting")
        (first_non_empty (v.network ∷ bytes "Datacenter network" ∷ [])) (source_label v.source)
    else if not v.ready
    then view_of (bytes "warn") (bytes "Unknown") (bytes "Detection lists not loaded")
        (bytes "no sources available")
    else view_of (bytes "good") (bytes "Clean") (bytes "No flags raised")
        (bytes "all sources clear")
