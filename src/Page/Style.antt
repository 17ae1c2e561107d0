-- ===== src/Page/Style.antt =====
-- main.go: which template a visitor sees, and how a setting is read from the environment.
use ip_unt1_com.Prelude.{
  ◌≡◌, Bool, true, false, ◌||◌, [], Option, none, some, Text, bytes, text_eq, if◌then◌else◌,
  is_empty, arith,
}
use ip_unt1_com.Strings.{trim_space, to_lower}

-- The two templates.
pub data Style : Type 0 where
  classic : Style
  swiss : Style

abbrev named_style : Text → Option Text → Text
named_style query cookie = elim cookie [
  | some c ↦ if is_empty query then c else query
  | none ↦ query
]

-- `pickStyle`: the template, and the value of the cookie that is set.
unfoldable pub pick_style : Text → Option Text → Style × Option Text
pick_style query cookie =
    let style = named_style query cookie in
    let keep : Option Text = if is_empty query then none else some style in
    if text_eq style (bytes "swiss")
    then (swiss, keep)
    else if text_eq style (bytes "classic")
    then (classic, keep)
    else (classic, none)

-- `envBool`; an unset variable reads as the empty text.
unfoldable pub env_bool : Text → Bool → Bool
env_bool text default =
    let v = to_lower (trim_space text) in
    if is_empty v
    then default
    else if text_eq v (bytes "1")
        || text_eq v (bytes "true")
        || text_eq v (bytes "yes")
        || text_eq v (bytes "on")
    then true
    else if text_eq v (bytes "0")
        || text_eq v (bytes "false")
        || text_eq v (bytes "no")
        || text_eq v (bytes "off")
    then false
    else default

-- `envDefault`.
unfoldable pub env_default : Text → Text → Text
env_default text default = if is_empty text then default else text

-- A visitor who is given a cookie sees the same template the next time, with that cookie and
-- without naming a style.
pub pick_style-again :
    (query : Text) (cookie : Option Text) (kept : Text)
    → (pick_style query cookie).1 ≡ some kept
    → (pick_style [] (some kept)).0 ≡ (pick_style query cookie).0
unfolding pick_style
pick_style-again query none kept h = ground (arith, h)
pick_style-again query (some c) kept h = ground (arith, h)
