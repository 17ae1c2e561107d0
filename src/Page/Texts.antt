-- ===== src/Page/Texts.antt =====
-- main.go: the views as plain text, /trace, /all and /headers.
use ip_unt1_com.Prelude.{
  Bool, not, ◌&&◌, ◌||◌, List, [], ◌∷◌, ◌++◌, Text, bytes, is_empty, if◌then◌else◌, map,
}
use ip_unt1_com.Strings.{join, trim_space, to_lower}
use ip_unt1_com.Asn.{itoa_ℤ}
use ip_unt1_com.View.{Request, RequestInfo}
use ip_unt1_com.Page.{Dataset}
use ip_unt1_com.Page.Rows.{Row, always, only_if, nonempty, print_rows, true_false}

-- `readyWord` and `onOff`.
unfoldable pub ready_word : Bool → Text
ready_word ready = if ready then bytes "loaded" else bytes "unavailable"

unfoldable pub on_off : Bool → Text
on_off b = if b then bytes "on" else bytes "off"

-- `emptyDash`.
unfoldable pub empty_dash : Text → Text
empty_dash s = if is_empty s then bytes "-" else s

-- What `handleTrace` reads besides the dataset: the scheme that a proxy forwards, whether the
-- connection is encrypted, and the time as text.
pub record TraceArgs : Type 0 where
  pub forwarded : Text
  pub tls : Bool
  pub host : Text
  pub ts : Text

unfoldable pub scheme_of : TraceArgs → Text
scheme_of a =
    if is_empty a.forwarded then if a.tls then bytes "https" else bytes "http" else a.forwarded

abbrev as_number : Dataset → Text
as_number d = bytes "AS" ++ itoa_ℤ d.asn

-- The lines of `handleTrace`.
unfoldable pub trace_rows : TraceArgs → Dataset → List Row
trace_rows a d =
    always (bytes "fl") d.ray
    ∷ always (bytes "h") a.host
    ∷ always (bytes "ip") d.ip
    ∷ always (bytes "version") d.version
    ∷ always (bytes "ts") a.ts
    ∷ always (bytes "visit_scheme") (scheme_of a)
    ∷ always (bytes "uag") d.ua
    ∷ always (bytes "colo") d.colo
    ∷ nonempty (bytes "colo_city") d.colo_city
    ∷ only_if (not (is_empty d.colo_city)) (bytes "colo_country") d.colo_country
    ∷ always (bytes "country") d.country
    ∷ nonempty (bytes "country_source") d.country_source
    ∷ always (bytes "asn") (as_number d)
    ∷ always (bytes "asorg") d.as_org
    ∷ nonempty (bytes "prefix") d.prefix
    ∷ nonempty (bytes "rir") d.rir
    ∷ nonempty (bytes "allocated") d.allocated
    ∷ nonempty (bytes "reverse") d.reverse
    ∷ nonempty (bytes "pop") d.pop
    ∷ nonempty (bytes "pop_city") d.pop_city
    ∷ nonempty (bytes "pop_country") d.pop_country
    ∷ nonempty (bytes "pop_v4") d.pop_v4
    ∷ nonempty (bytes "pop_v6") d.pop_v6
    ∷ always (bytes "via") d.via
    ∷ always (bytes "vpn") (on_off d.vpn.vpn)
    ∷ always (bytes "vpn_db") (ready_word d.vpn.ready)
    ∷ only_if d.vpn.hosting (bytes "hosting") (bytes "on")
    ∷ only_if d.vpn.tor (bytes "tor") (bytes "on")
    ∷ only_if d.vpn.privacy_proxy (bytes "privacy_proxy") (bytes "on")
    ∷ nonempty (bytes "provider") d.vpn.provider
    ∷ []

-- The body of `handleTrace`.
unfoldable pub trace_text : TraceArgs → Dataset → Text
trace_text a d = print_rows (bytes "=") (trace_rows a d)

abbrev with_version : Text → Text → Text
with_version name version = if is_empty version then name else name ++ (bytes " " ++ version)

abbrev exit_place : Dataset → Text
exit_place d =
    if is_empty d.pop_country
    then d.pop_city
    else if is_empty d.pop_city
    then d.pop_country
    else d.pop_city ++ (bytes ", " ++ d.pop_country)

abbrev sourced : Dataset → Text
sourced d =
    if is_empty d.country_source
    then empty_dash d.country
    else empty_dash d.country ++ (bytes " (" ++ (d.country_source ++ bytes ")"))

abbrev colo_text : Dataset → Text
colo_text d =
    if is_empty d.colo_city
    then d.colo
    else d.colo ++ (bytes " (" ++ (d.colo_city ++ (bytes ", " ++ (d.colo_country ++ bytes ")"))))

-- The lines of `handleAll`.
unfoldable pub all_rows : Dataset → List Row
all_rows d =
    let exit = not (is_empty d.pop) || not (is_empty d.pop_city) in
    always (bytes "ip:        ") d.ip
    ∷ always (bytes "version:   ") d.version
    ∷ always (bytes "country:   ") (sourced d)
    ∷ always (bytes "asn:       ") (as_number d)
    ∷ always (bytes "asorg:     ") (empty_dash d.as_org)
    ∷ nonempty (bytes "prefix:    ") d.prefix
    ∷ nonempty (bytes "rir:       ") d.rir
    ∷ nonempty (bytes "allocated: ") d.allocated
    ∷ always (bytes "reverse:   ") (empty_dash d.reverse)
    ∷ only_if exit (bytes "pop:       ")
        (trim_space (d.pop ++ (bytes " (" ++ (exit_place d ++ bytes ")"))))
    ∷ only_if (exit && not (is_empty d.pop_v4)) (bytes "pop_v4:    ") d.pop_v4
    ∷ only_if (exit && not (is_empty d.pop_v6)) (bytes "pop_v6:    ") d.pop_v6
    ∷ always (bytes "ua:        ") d.ua
    ∷ nonempty (bytes "ua_pretty: ") d.ua_pretty
    ∷ only_if (not (is_empty d.ua_info.browser)) (bytes "browser:   ")
        (with_version d.ua_info.browser d.ua_info.browser_version)
    ∷ nonempty (bytes "engine:    ") d.ua_info.engine
    ∷ only_if (not (is_empty d.ua_info.os)) (bytes "os:        ")
        (with_version d.ua_info.os d.ua_info.os_version)
    ∷ only_if (not (is_empty d.ua_info.device)) (bytes "device:    ") (to_lower d.ua_info.device)
    ∷ always (bytes "via:       ") d.via
    ∷ nonempty (bytes "ray:       ") d.ray
    ∷ only_if (not (is_empty d.ray)) (bytes "colo:      ") (colo_text d)
    ∷ always (bytes "vpn:       ") (true_false d.vpn.vpn)
    ∷ only_if d.vpn.hosting (bytes "hosting:   ") (bytes "true")
    ∷ only_if (not d.vpn.ready) (bytes "vpn_db:    ")
        (bytes "not loaded — verdict is not authoritative")
    ∷ nonempty (bytes "provider:  ") d.vpn.provider
    ∷ only_if (not (is_empty d.vpn.reasons)) (bytes "reasons:   ") (join d.vpn.reasons (bytes "; "))
    ∷ []

-- The body of `handleAll`.
unfoldable pub all_text : Dataset → Text
all_text d = print_rows [] (all_rows d)

-- The headers that `handleHeaders` shows.
unfoldable pub shown_headers : List Text
shown_headers =
    bytes "CF-Connecting-IP"
    ∷ bytes "CF-IPCountry"
    ∷ bytes "CF-Ray"
    ∷ bytes "CF-Visitor"
    ∷ bytes "X-Forwarded-For"
    ∷ bytes "X-Forwarded-Proto"
    ∷ bytes "X-Real-IP"
    ∷ bytes "User-Agent"
    ∷ bytes "Accept"
    ∷ bytes "Accept-Language"
    ∷ bytes "Accept-Encoding"
    ∷ bytes "Referer"
    ∷ bytes "Origin"
    ∷ bytes "DNT"
    ∷ bytes "Sec-CH-UA"
    ∷ bytes "Sec-CH-UA-Mobile"
    ∷ bytes "Sec-CH-UA-Platform"
    ∷ bytes "Sec-CH-UA-Platform-Version"
    ∷ []

abbrev header_row : Request → Text → Row
header_row r k = nonempty k (r.header k)

-- The body of `handleHeaders`, of a request with this first line: method, URI and protocol.
unfoldable pub headers_text : Text → Request → RequestInfo → Text
headers_text first r info =
    (first ++ 10 ∷ [])
    ++ print_rows (bytes ": ") (
        always (bytes "Host") r.host
        ∷ always (bytes "Remote-Addr") info.remote_addr
        ∷ map (header_row r) shown_headers)
