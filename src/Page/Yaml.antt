-- ===== src/Page/Yaml.antt =====
-- main.go: `writeYAML`. The first argument says which characters from 128 on `strconv.Quote` takes
-- for printable.
use ip_unt1_com.Prelude.{
  ℕ, Bool, not, ◌||◌, List, [], ◌∷◌, ◌++◌, Text, bytes, is_empty, if◌then◌else◌, ◌==◌, any, map,
}
use ip_unt1_com.Strings.Quote.{quote}
use ip_unt1_com.Strings.{has_prefix, has_suffix, to_lower}
use ip_unt1_com.Asn.{itoa_ℤ, is_zero}
use ip_unt1_com.Page.{Dataset}
use ip_unt1_com.Page.Rows.{Row, always, only_if, nonempty, print_rows, true_false}

-- The bytes that make `emit` quote a value.
unfoldable pub special : Text
special = bytes ":#@\"'\n\\{}[]&*!|>%`,"

-- The test of `emit`.
unfoldable pub is_quoted : Text → Bool
is_quoted v =
    any (λ c. any (λ d. d == c) special) v || has_prefix v (bytes " ") || has_suffix v (bytes " ")

unfoldable pub scalar : (ℕ → Bool) → Text → Text
scalar is_print v = if is_quoted v then quote is_print v else v

-- `emit`.
abbrev pub emit : (ℕ → Bool) → Text → Text → Row
emit is_print k v = only_if (not (is_empty v)) k (scalar is_print v)

unfoldable pub top_rows : (ℕ → Bool) → Dataset → List Row
top_rows is_print d =
    emit is_print (bytes "ip") d.ip
    ∷ emit is_print (bytes "version") d.version
    ∷ emit is_print (bytes "country") d.country
    ∷ emit is_print (bytes "country_source") d.country_source
    ∷ only_if (not (is_zero d.asn)) (bytes "asn") (itoa_ℤ d.asn)
    ∷ emit is_print (bytes "asorg") d.as_org
    ∷ emit is_print (bytes "prefix") d.prefix
    ∷ emit is_print (bytes "rir") d.rir
    ∷ emit is_print (bytes "allocated") d.allocated
    ∷ emit is_print (bytes "reverse") d.reverse
    ∷ emit is_print (bytes "ua") d.ua
    ∷ emit is_print (bytes "ua_pretty") d.ua_pretty
    ∷ emit is_print (bytes "browser") d.ua_info.browser
    ∷ emit is_print (bytes "browser_version") d.ua_info.browser_version
    ∷ emit is_print (bytes "engine") d.ua_info.engine
    ∷ emit is_print (bytes "os") d.ua_info.os
    ∷ emit is_print (bytes "os_version") d.ua_info.os_version
    ∷ emit is_print (bytes "device") (to_lower d.ua_info.device)
    ∷ emit is_print (bytes "via") d.via
    ∷ emit is_print (bytes "ray") d.ray
    ∷ emit is_print (bytes "colo") d.colo
    ∷ emit is_print (bytes "colo_city") d.colo_city
    ∷ emit is_print (bytes "colo_country") d.colo_country
    ∷ emit is_print (bytes "pop") d.pop
    ∷ emit is_print (bytes "pop_city") d.pop_city
    ∷ emit is_print (bytes "pop_country") d.pop_country
    ∷ emit is_print (bytes "pop_host") d.pop_host
    ∷ emit is_print (bytes "pop_v4") d.pop_v4
    ∷ emit is_print (bytes "pop_v6") d.pop_v6
    ∷ emit is_print (bytes "pop_provider") d.pop_provider
    ∷ []

unfoldable pub verdict_rows : Dataset → List Row
verdict_rows d =
    always (bytes "  vpn") (true_false d.vpn.vpn)
    ∷ always (bytes "  ready") (true_false d.vpn.ready)
    ∷ only_if d.vpn.hosting (bytes "  hosting") (bytes "true")
    ∷ only_if d.vpn.tor (bytes "  tor") (bytes "true")
    ∷ only_if d.vpn.privacy_proxy (bytes "  privacy_proxy") (bytes "true")
    ∷ nonempty (bytes "  provider") d.vpn.provider
    ∷ nonempty (bytes "  source") d.vpn.source
    ∷ []

abbrev pub reason_row : (ℕ → Bool) → Text → Row
reason_row is_print r = always (bytes "    - ") (quote is_print r)

unfoldable pub reasons_text : (ℕ → Bool) → List Text → Text
reasons_text is_print rs =
    if is_empty rs then [] else bytes "  reasons:\n" ++ print_rows [] (map (reason_row is_print) rs)

-- `writeYAML`.
unfoldable pub yaml_text : (ℕ → Bool) → Dataset → Text
yaml_text is_print d =
    print_rows (bytes ": ") (top_rows is_print d)
    ++ (bytes "vpn:\n"
        ++ (print_rows (bytes ": ") (verdict_rows d) ++ reasons_text is_print d.vpn.reasons))
