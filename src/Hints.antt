-- ===== src/Hints.antt =====
-- main.go: the client hints, the Sec-CH-UA family of headers.
pub mod Brands
pub mod Wanted
use ip_unt1_com.Prelude.{
  ℕ, Bool, true, false, not, ◌&&◌, ◌||◌, List, [], ◌∷◌, ◌++◌, Option, none, some, Text, bytes,
  text_eq, if◌then◌else◌, is_empty, drop, take, suc,
}
use ip_unt1_com.Strings.{
  trim_space, trim_quotes, trim_prefix, has_prefix, contains_text, to_lower, equal_fold, index_byte,
}
use ip_unt1_com.View.{Request, split_top_level}

pub record ClientHints : Type 0 where
  pub brand : Text
  pub version : Text
  pub platform : Text
  pub platform_version : Text
  pub mobile : Bool

-- `prettifyBrand`.
unfoldable pub prettify_brand : Text → Text
prettify_brand brand = trim_prefix (trim_prefix brand (bytes "Google ")) (bytes "Microsoft ")

abbrev then_word : Text → Text → Text
then_word start s = if is_empty s then [] else start ++ s

-- `Pretty`.
unfoldable pub pretty : ClientHints → Text
pretty h =
    let on =
      if is_empty h.platform
      then []
      else bytes " on " ++ (h.platform ++ then_word (bytes " ") h.platform_version) in
    let tail = if h.mobile then bytes " (mobile)" else [] in
    if is_empty h.brand
    then []
    else prettify_brand h.brand ++ (then_word (bytes " ") h.version ++ (on ++ tail))

pub record Cand : Type 0 where
  pub brand : Text
  pub version : Text

-- What follows the first semicolon: the version.
abbrev version_of : Text → Text
version_of s =
    let v = trim_space s in if has_prefix v (bytes "v=") then trim_quotes (drop 2 v) else []

-- One part of the header; none without a semicolon.
unfoldable pub read_cand : Text → Option Cand
read_cand s =
    let part = trim_space s in
    elim (index_byte part b';') [
      | none ↦ none
      | some i ↦ some (record {
        brand = trim_quotes (trim_space (take i part));
        version = version_of (drop (suc i) part);
      })
    ]

unfoldable pub read_cands : List Text → List Cand
read_cands [] = []
read_cands (s ∷ ss) = elim (read_cand s) [ none ↦ read_cands ss | some c ↦ c ∷ read_cands ss ]

-- `pickFirst`.
unfoldable pub pick_first : List Cand → Text → Option Cand
pick_first [] want = none
pick_first (c ∷ cs) want =
    let rest = pick_first cs want in if equal_fold c.brand want then some c else rest

-- The first of the wanted brands that is there.
unfoldable pub pick_wanted : List Cand → List Text → Option Cand
pick_wanted cs [] = none
pick_wanted cs (w ∷ ws) = elim (pick_first cs w) [ some c ↦ some c | none ↦ pick_wanted cs ws ]

unfoldable pub wanted_brands : List Text
wanted_brands =
    bytes "Google Chrome"
    ∷ bytes "Microsoft Edge"
    ∷ bytes "Opera"
    ∷ bytes "Brave"
    ∷ bytes "Vivaldi"
    ∷ bytes "Arc"
    ∷ []

-- A brand that is made up, to keep parsers honest.
unfoldable pub is_grease : Text → Bool
is_grease brand =
    let l = to_lower brand in
    contains_text l (bytes "not")
    && (contains_text l (bytes "brand") || contains_text l (bytes "_"))

abbrev pub is_chromium : Text → Bool
is_chromium brand = text_eq (to_lower brand) (bytes "chromium")

-- The loop over what is left.
unfoldable pub pick_other : List Cand → Option Cand
pick_other [] = none
pick_other (c ∷ cs) =
    let rest = pick_other cs in
    if is_chromium c.brand then rest else if is_grease c.brand then rest else some c

-- The brand of the candidates: a wanted one, another real one, or Chromium.
unfoldable pub pick_brand : List Cand → Option Cand
pick_brand cs = elim (pick_wanted cs wanted_brands) [
  | some c ↦ some c
  | none ↦ elim (pick_other cs) [ some c ↦ some c | none ↦ pick_first cs (bytes "Chromium") ]
]

abbrev with_brand : ClientHints → Option Cand → ClientHints
with_brand h none = h
with_brand h (some c) = record h { brand = c.brand; version = c.version }

-- `parseClientHints`.
unfoldable pub parse_client_hints : Request → ClientHints
parse_client_hints r =
    let v = trim_quotes (r.header (bytes "Sec-CH-UA-Platform-Version")) in
    let raw = r.header (bytes "Sec-CH-UA") in
    let out : ClientHints = record {
      brand = [];
      version = [];
      platform = trim_quotes (r.header (bytes "Sec-CH-UA-Platform"));
      platform_version = if text_eq v (bytes "0.0.0.0") then [] else v;
      mobile = text_eq (trim_space (r.header (bytes "Sec-CH-UA-Mobile"))) (bytes "?1");
    } in
    if is_empty raw
    then out
    else with_brand out (pick_brand (read_cands (split_top_level raw b',')))
