-- ===== src/Ua/Detect.antt =====
-- ua.go: what a user agent and the client hints say of the browser, the system and the device.
use ip_unt1_com.Prelude.{
  Bool, false, ◌||◌, List, [], ◌∷◌, Text, bytes, text_eq, if◌then◌else◌, is_empty, map, ◌==◌,
}
use ip_unt1_com.Strings.{to_lower, contains_text}
use ip_unt1_com.Hints.{ClientHints, prettify_brand}
use ip_unt1_com.Ua.Regexp.{match_string, submatch}
use ip_unt1_com.Ua.Patterns.{
  bot_re, re_edge, re_opera, re_opera_old, re_vivaldi, re_samsung, re_firefox, re_chrome, re_safari,
  re_ie, re_ios, re_mac, re_android, re_windows, re_chrome_os, re_linux,
}

pub record UaInfo : Type 0 where
  pub browser : Text
  pub browser_version : Text
  pub browser_slug : Text
  pub engine : Text
  pub os : Text
  pub os_version : Text
  pub os_slug : Text
  pub device : Text
  pub device_slug : Text
  pub bot : Bool

abbrev pub no_ua : UaInfo
no_ua = record {
  browser = [];
  browser_version = [];
  browser_slug = [];
  engine = [];
  os = [];
  os_version = [];
  os_slug = [];
  device = [];
  device_slug = [];
  bot = false;
}

-- A name, a version and a slug.
pub record Found : Type 0 where
  pub name : Text
  pub version : Text
  pub slug : Text

abbrev found : Text → Text → Text → Found
found name version slug = record { name = name; version = version; slug = slug }

abbrev is_one : Text → List Text → Bool
is_one s [] = false
is_one s (t ∷ ts) = text_eq s t || is_one s ts

-- `engineFor`.
unfoldable pub engine_for : Text → Text
engine_for slug =
    if is_one slug (
      bytes "chrome"
      ∷ bytes "edge"
      ∷ bytes "opera"
      ∷ bytes "brave"
      ∷ bytes "vivaldi"
      ∷ bytes "arc"
      ∷ bytes "samsung"
      ∷ bytes "chromium"
      ∷ [])
    then bytes "Blink"
    else if text_eq slug (bytes "firefox")
    then bytes "Gecko"
    else if text_eq slug (bytes "safari")
    then bytes "WebKit"
    else if text_eq slug (bytes "ie")
    then bytes "Trident"
    else []

-- The last tests of `detectBrowser`.
unfoldable pub detect_late : Text → Found
detect_late ua =
    let v = submatch re_ie ua 1 in
    if match_string re_safari ua
    then found (bytes "Safari") (submatch re_safari ua 1) (bytes "safari")
    else if match_string re_opera_old ua
    then found (bytes "Opera") (submatch re_opera_old ua 1) (bytes "opera")
    else if match_string re_ie ua
    then found (bytes "Internet Explorer") (if is_empty v then submatch re_ie ua 2 else v)
        (bytes "ie")
    else found [] [] []

-- `detectBrowser`; the order of the tests matters.
unfoldable pub detect_browser : Text → Found
detect_browser ua =
    if match_string re_edge ua
    then found (bytes "Edge") (submatch re_edge ua 1) (bytes "edge")
    else if match_string re_opera ua
    then found (bytes "Opera") (submatch re_opera ua 1) (bytes "opera")
    else if match_string re_vivaldi ua
    then found (bytes "Vivaldi") (submatch re_vivaldi ua 1) (bytes "vivaldi")
    else if match_string re_samsung ua
    then found (bytes "Samsung Internet") (submatch re_samsung ua 1) (bytes "samsung")
    else if match_string re_firefox ua
    then found (bytes "Firefox") (submatch re_firefox ua 1) (bytes "firefox")
    else if match_string re_chrome ua
    then found (bytes "Chrome") (submatch re_chrome ua 1) (bytes "chrome")
    else detect_late ua

-- `strings.ReplaceAll(v, "_", ".")`.
abbrev dots : Text → Text
dots v = map (λ c. if c == b'_' then b'.' else c) v

-- `windowsName`.
unfoldable pub windows_name : Text → Text
windows_name nt =
    if text_eq nt (bytes "10.0")
    then bytes "10/11"
    else if text_eq nt (bytes "6.3")
    then bytes "8.1"
    else if text_eq nt (bytes "6.2")
    then bytes "8"
    else if text_eq nt (bytes "6.1")
    then bytes "7"
    else if text_eq nt (bytes "6.0")
    then bytes "Vista"
    else nt

-- `detectOS`.
unfoldable pub detect_os : Text → Found
detect_os ua =
    let ios = dots (submatch re_ios ua 1) in
    if match_string re_ios ua
    then if contains_text ua (bytes "iPad")
      then found (bytes "iPadOS") ios (bytes "ios")
      else found (bytes "iOS") ios (bytes "ios")
    else if match_string re_android ua
    then found (bytes "Android") (submatch re_android ua 1) (bytes "android")
    else if match_string re_mac ua
    then found (bytes "macOS") (dots (submatch re_mac ua 1)) (bytes "macos")
    else if match_string re_windows ua
    then found (bytes "Windows") (windows_name (submatch re_windows ua 1)) (bytes "windows")
    else if match_string re_chrome_os ua
    then found (bytes "ChromeOS") [] (bytes "chromeos")
    else if match_string re_linux ua
    then found (bytes "Linux") [] (bytes "linux")
    else found [] [] []

-- `osSlug`.
unfoldable pub os_slug : Text → Text
os_slug platform =
    let p = to_lower platform in
    if is_one p (bytes "macos" ∷ bytes "mac os x" ∷ bytes "mac" ∷ [])
    then bytes "macos"
    else if is_one p (bytes "ios" ∷ bytes "ipados" ∷ [])
    then bytes "ios"
    else if text_eq p (bytes "windows")
    then bytes "windows"
    else if text_eq p (bytes "android")
    then bytes "android"
    else if text_eq p (bytes "linux")
    then bytes "linux"
    else if is_one p (bytes "chrome os" ∷ bytes "chromeos" ∷ bytes "chromium os" ∷ [])
    then bytes "chromeos"
    else []

-- The brands that `brandToSlug` looks for, in its order; each is its own slug.
unfoldable pub brand_slugs : List Text
brand_slugs =
    bytes "edge"
    ∷ bytes "opera"
    ∷ bytes "vivaldi"
    ∷ bytes "brave"
    ∷ bytes "arc"
    ∷ bytes "samsung"
    ∷ bytes "firefox"
    ∷ bytes "chrome"
    ∷ bytes "safari"
    ∷ bytes "chromium"
    ∷ []

unfoldable pub first_slug : Text → List Text → Text
first_slug b [] = []
first_slug b (s ∷ ss) = let rest = first_slug b ss in if contains_text b s then s else rest

-- `brandToSlug`.
unfoldable pub brand_to_slug : Text → Text
brand_to_slug brand = first_slug (to_lower brand) brand_slugs

-- The browser that `parseUA` settles on: the hint, or what the user agent says.
unfoldable pub browser_of : Text → ClientHints → Found
browser_of ua hints =
    if is_empty hints.brand
    then detect_browser ua
    else found (prettify_brand hints.brand) hints.version (brand_to_slug hints.brand)

unfoldable pub os_of : Text → ClientHints → Found
os_of ua hints =
    if is_empty hints.platform
    then detect_os ua
    else found hints.platform hints.platform_version (os_slug hints.platform)

-- The device, with its slug.
unfoldable pub device_of : Text → ClientHints → Text × Text
device_of ua hints =
    if hints.mobile
    then (bytes "Mobile", bytes "mobile")
    else if contains_text ua (bytes "iPad") || contains_text ua (bytes "Tablet")
    then (bytes "Tablet", bytes "tablet")
    else if contains_text ua (bytes "Mobile")
        || contains_text ua (bytes "iPhone")
        || contains_text ua (bytes "Android")
        || contains_text ua (bytes "iPod")
    then (bytes "Mobile", bytes "mobile")
    else (bytes "Desktop", bytes "desktop")

-- `parseUA`.
unfoldable pub parse_ua : Text → ClientHints → UaInfo
parse_ua ua hints =
    let b = browser_of ua hints in
    let o = os_of ua hints in
    let (device, slug) = device_of ua hints in
    if is_empty ua then no_ua else record {
      browser = b.name;
      browser_version = b.version;
      browser_slug = b.slug;
      engine = engine_for b.slug;
      os = o.name;
      os_version = o.version;
      os_slug = o.slug;
      device = device;
      device_slug = slug;
      bot = match_string bot_re ua;
    }
