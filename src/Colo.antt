-- ===== src/Colo.antt =====
-- colo.go, and what main.go shows of a data centre and of a country. The table is a Go map: its
-- keys differ, so that a list of rows says the same.
pub mod Row
pub mod West
pub mod East
pub mod Europe
pub mod Places
use ip_unt1_com.Prelude.{
  ℕ, suc, ◌+◌, ◌-◌, Bool, true, false, not, ◌&&◌, ◌||◌, List, [], ◌∷◌, ◌++◌, Option, none, some,
  Text, bytes, text_eq, if◌then◌else◌, leb, ltb, ◌==◌, length, drop,
}
use ip_unt1_com.Strings.{trim_space, to_upper}
use ip_unt1_com.Colo.Row.{Colo}
use ip_unt1_com.Colo.West.{africa, north_america, central_america, south_america}
use ip_unt1_com.Colo.East.{east_asia, southeast_asia, south_asia, west_asia, oceania}
use ip_unt1_com.Colo.Europe.{europe}

-- `coloLocations`.
unfoldable pub colo_locations : List Colo
colo_locations =
    africa
    ++ (north_america
        ++ (central_america
            ++ (south_america
                ++ (east_asia
                    ++ (southeast_asia ++ (south_asia ++ (west_asia ++ (europe ++ oceania))))))))

unfoldable pub find_colo : Text → List Colo → Option Colo
find_colo code [] = none
find_colo code (c ∷ cs) =
    let rest = find_colo code cs in if text_eq c.code code then some c else rest

-- `coloLocation`: the city and the country, empty for an unknown code.
unfoldable pub colo_location : Text → Text × Text
colo_location code = elim (find_colo code colo_locations) [
  | none ↦ ([], [])
  | some c ↦ (c.city, c.country)
]

-- What follows the last dash, if there is one.
unfoldable pub after_last_dash : Text → Option Text
after_last_dash [] = none
after_last_dash (c ∷ s) = elim (after_last_dash s) [
  | some t ↦ some t
  | none ↦ if c == b'-' then some s else none
]

-- `cfColo`.
unfoldable pub cf_colo : Text → Text
cf_colo ray = elim (after_last_dash ray) [
  | none ↦ []
  | some code ↦ if length code == 3 then code else []
]

abbrev is_capital : ℕ → Bool
is_capital c = leb b'A' c && leb c b'Z'

-- The regional indicator of a capital, in UTF-8.
abbrev indicator : ℕ → Text
indicator c = 0xf0 ∷ 0x9f ∷ 0x87 ∷ (0xa6 + (c - b'A')) ∷ []

abbrev flag_of : Text → Text
flag_of (a ∷ b ∷ []) =
    if not (is_capital a && is_capital b)
    then []
    else if text_eq (a ∷ b ∷ []) (bytes "XX")
    then []
    else indicator a ++ indicator b
flag_of _ = []

-- `countryFlag`.
unfoldable pub country_flag : Text → Text
country_flag cc = flag_of (to_upper (trim_space cc))
