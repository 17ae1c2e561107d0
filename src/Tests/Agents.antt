-- ===== src/Tests/Agents.antt =====
-- User agents, client hints and data centres, run.
use ip_unt1_com.Prelude.{
  ◌≡◌, refl, true, false, not, ◌&&◌, ◌||◌, List, [], ◌∷◌, some, Text, bytes, text_eq, is_empty, any,
  lookup, insert,
}
use ip_unt1_com.Strings.{
  to_lower, lower, contains_text, has_prefix, trim_space, trim, trim_left, is_space, equal_fold,
  trim_quotes, trim_prefix, index_byte,
}
use ip_unt1_com.View.{split_top_level, split_from}
use ip_unt1_com.Hints.{
  ClientHints, Cand, pick_brand, is_grease, is_chromium, pick_wanted, pick_first, pick_other,
  wanted_brands, read_cands, read_cand,
}
use ip_unt1_com.Hints.Wanted.{is_wanted}
use ip_unt1_com.Hints.Brands.{is_named, pick_brand-real}
use ip_unt1_com.Colo.{colo_locations, find_colo, colo_location}
use ip_unt1_com.Colo.West.{africa, north_america, central_america, south_america}
use ip_unt1_com.Colo.East.{east_asia, southeast_asia, south_asia, west_asia, oceania}
use ip_unt1_com.Colo.Europe.{europe}
use ip_unt1_com.Ua.Regexp.{repeat, repeat_lazy, run, find_from, match_string, submatch}
use ip_unt1_com.Ua.Patterns.{
  bot_re, re_edge, re_opera, re_opera_old, re_vivaldi, re_samsung, re_firefox, re_chrome, re_safari,
  re_ie, re_ios, re_mac, re_android, re_windows, re_chrome_os, re_linux,
}
use ip_unt1_com.Ua.Detect.{detect_late, detect_browser, detect_os, parse_ua, windows_name}
use ip_unt1_com.Ua.Engines.{parse_ua-engine}

abbrev no_hints : ClientHints
no_hints = record { brand = []; version = []; platform = []; platform_version = []; mobile = false }

-- Safari on an iPad.
abbrev ipad : Text
ipad =
    bytes
      "Mozilla/5.0 (iPad; CPU OS 17_1 like Mac OS X) AppleWebKit/605.1.15 Version/17.1 Safari/604.1"

parse_ua-engine_example :
    (is_empty (parse_ua ipad no_hints).engine ≡ is_empty (parse_ua ipad no_hints).browser_slug)
    × ((parse_ua ipad no_hints).device_slug ≡ to_lower (parse_ua ipad no_hints).device)
parse_ua-engine_example = parse_ua-engine ipad no_hints

matcher : Unit {0}
unfolding bytes text_eq to_lower lower contains_text has_prefix lookup insert repeat repeat_lazy run
    find_from match_string submatch bot_re re_edge re_opera re_opera_old re_vivaldi re_samsung
    re_firefox re_chrome re_safari re_ie re_ios re_mac re_android re_windows re_chrome_os re_linux
    detect_late detect_browser detect_os windows_name
matcher = tt

detect_browser-ipad :
    detect_browser ipad
    ≡ record { name = bytes "Safari"; version = bytes "17.1"; slug = bytes "safari" }
unfolding matcher
detect_browser-ipad = refl

detect_os-ipad :
    detect_os ipad ≡ record { name = bytes "iPadOS"; version = bytes "17.1"; slug = bytes "ios" }
unfolding matcher
detect_os-ipad = refl

-- The name of a bot that ends in "bot" has no word boundary before those letters.
match_string_bingbot : match_string bot_re (bytes "Mozilla/5.0 (compatible; bingbot/2.0)") ≡ false
unfolding matcher
match_string_bingbot = refl

match_string_curl : match_string bot_re (bytes "curl/8.4.0") ≡ true
unfolding matcher
match_string_curl = refl

abbrev cand : Text → Text → Cand
cand brand version = record { brand = brand; version = version }

abbrev chromium : Cand
chromium = cand (bytes "Chromium") (bytes "120")

abbrev two_brands : List Cand
two_brands = cand (bytes "Not_A Brand") (bytes "8") ∷ chromium ∷ []

pick_brand-real_example :
    ((contains_text (to_lower chromium.brand) (bytes "not")
        && (contains_text (to_lower chromium.brand) (bytes "brand")
            || contains_text (to_lower chromium.brand) (bytes "_")))
      ≡ false)
    × (is_wanted wanted_brands chromium ≡ any (is_wanted wanted_brands) two_brands)
    × (is_chromium chromium.brand ≡ not (any is_named two_brands))
unfolding bytes text_eq to_lower lower contains_text has_prefix pick_brand pick_wanted pick_first
    pick_other wanted_brands equal_fold is_grease
pick_brand-real_example = pick_brand-real two_brands chromium refl

-- A made-up brand with a semicolon is cut there, and what is left passes as a brand.
pick_brand_semicolon :
    pick_brand
      (read_cands (split_top_level (bytes "\"Not;A=Brand\";v=\"99\", \"Chromium\";v=\"102\"") b','))
    ≡ some (cand (bytes "Not") [])
unfolding bytes text_eq to_lower lower contains_text has_prefix pick_brand pick_wanted pick_first
    pick_other wanted_brands equal_fold is_grease read_cands read_cand split_top_level split_from
    trim_space trim trim_left is_space trim_quotes trim_prefix index_byte
pick_brand_semicolon = refl

colo_location_marseille : colo_location (bytes "MRS") ≡ (bytes "Marseille", bytes "FR")
unfolding bytes text_eq colo_location find_colo colo_locations africa north_america central_america
    south_america east_asia southeast_asia south_asia west_asia europe oceania
colo_location_marseille = refl
