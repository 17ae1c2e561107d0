-- ===== src/Ua/Engines.antt =====
-- ua.go: the engines of the browsers, and the words for a device.
use ip_unt1_com.Prelude.{
  ◌≡◌, refl, List, [], ◌∷◌, Text, bytes, text_eq, is_empty, Bool-cases, inl, inr, arith, All,
}
use ip_unt1_com.Strings.{to_lower, to_lower, lower, contains_text}
use ip_unt1_com.Hints.{ClientHints}
use ip_unt1_com.Ua.Detect.{
  engine_for, detect_browser, detect_late, brand_slugs, first_slug, brand_to_slug, browser_of,
  device_of, parse_ua,
}

abbrev HasEngine : Text → Type 0
HasEngine slug = is_empty (engine_for slug) ≡ is_empty slug

-- The slugs of `detectBrowser` and of `brandToSlug`.
slugs-HasEngine :
    HasEngine []
    × HasEngine (bytes "edge")
    × HasEngine (bytes "opera")
    × HasEngine (bytes "vivaldi")
    × HasEngine (bytes "samsung")
    × HasEngine (bytes "firefox")
    × HasEngine (bytes "chrome")
    × HasEngine (bytes "safari")
    × HasEngine (bytes "ie")
unfolding engine_for bytes text_eq
slugs-HasEngine = (refl, refl, refl, refl, refl, refl, refl, refl, refl)

brand_slugs-HasEngine : All HasEngine brand_slugs
unfolding brand_slugs engine_for bytes text_eq
brand_slugs-HasEngine =
    (refl, (refl, (refl, (refl, (refl, (refl, (refl, (refl, (refl, (refl, tt))))))))))

detect_late-HasEngine : (ua : Text) → HasEngine (detect_late ua).slug
unfolding detect_late
detect_late-HasEngine ua = ground (arith, slugs-HasEngine)

detect_browser-HasEngine : (ua : Text) → HasEngine (detect_browser ua).slug
unfolding detect_browser
detect_browser-HasEngine ua = ground (arith, slugs-HasEngine, detect_late-HasEngine ua)

first_slug-HasEngine : (b : Text) (ss : List Text) → All HasEngine ss → HasEngine (first_slug b ss)
unfolding first_slug
first_slug-HasEngine b [] h = slugs-HasEngine.0
first_slug-HasEngine b (s ∷ ss) h = elim (Bool-cases (contains_text b s)) [
  | inl hit ↦ rw hit h.0
  | inr miss ↦ rw miss (first_slug-HasEngine b ss h.1)
]

browser_of-HasEngine : (ua : Text) (hints : ClientHints) → HasEngine (browser_of ua hints).slug
unfolding browser_of brand_to_slug
browser_of-HasEngine ua hints = elim (Bool-cases (is_empty hints.brand)) [
  | inl no_hint ↦ rw no_hint (detect_browser-HasEngine ua)
  | inr hint ↦
      rw hint (first_slug-HasEngine (to_lower hints.brand) brand_slugs brand_slugs-HasEngine)
]

device_of-slug :
    (ua : Text) (hints : ClientHints) → (device_of ua hints).1 ≡ to_lower (device_of ua hints).0
unfolding device_of to_lower lower bytes
device_of-slug ua hints = ground arith

-- Of every user agent, with any hints: an engine is named exactly when the browser has a slug, so
-- that no recognised browser is without one, and the slug of the device is its name in small
-- letters.
pub parse_ua-engine :
    (ua : Text) (hints : ClientHints)
    → (is_empty (parse_ua ua hints).engine ≡ is_empty (parse_ua ua hints).browser_slug)
      × ((parse_ua ua hints).device_slug ≡ to_lower (parse_ua ua hints).device)
unfolding parse_ua
parse_ua-engine ua hints = elim (Bool-cases (is_empty ua)) [
  | inl blank ↦ rw (blank, parse_ua) (refl, unfold to_lower in refl)
  | inr some_ua ↦ rw (some_ua, parse_ua) (browser_of-HasEngine ua hints, device_of-slug ua hints)
]
