-- ===== src/Colo/Places.antt =====
-- What is shown of a known data centre.
use ip_unt1_com.Prelude.{
  ◌≡◌, refl, Bool, true, not, ◌&&◌, List, [], ◌∷◌, some, Text, bytes, text_eq, is_empty,
  Option-cases, Bool-cases, inl, inr, arith, is_some,
}
use ip_unt1_com.Strings.{trim_space, trim, trim_left, is_space, to_upper, upper}
use ip_unt1_com.Colo.Row.{Colo}
use ip_unt1_com.Colo.West.{africa, north_america, central_america, south_america}
use ip_unt1_com.Colo.East.{east_asia, southeast_asia, south_asia, west_asia, oceania}
use ip_unt1_com.Colo.Europe.{europe}
use ip_unt1_com.Colo.{colo_locations, find_colo, colo_location, country_flag}

-- A row with a city and a country that has a flag.
abbrev is_complete : Colo → Bool
is_complete c = not (is_empty c.city) && not (is_empty (country_flag c.country))

abbrev all_complete : List Colo → Bool
all_complete [] = true
all_complete (c ∷ cs) = is_complete c && all_complete cs

table-all_complete : all_complete colo_locations ≡ true
unfolding colo_locations africa north_america central_america south_america east_asia southeast_asia
    south_asia west_asia oceania europe bytes country_flag to_upper upper trim_space trim trim_left
    is_space text_eq
table-all_complete = refl

complete-find_colo :
    (code : Text) (cs : List Colo) (c : Colo)
    → all_complete cs ≡ true
    → find_colo code cs ≡ some c
    → is_complete c ≡ true
unfolding find_colo
complete-find_colo code [] c h e = absurd (ground arith)
complete-find_colo code (r ∷ cs) c h e = elim (Bool-cases (text_eq r.code code)) [
  | inl hit ↦ ground (arith, e, h, hit)
  | inr miss ↦ complete-find_colo code cs c (ground arith) (ground arith)
]

country_flag_empty : is_empty (country_flag []) ≡ true
unfolding country_flag to_upper trim_space trim trim_left
country_flag_empty = refl

-- Of a data centre with a known code the city and a flag are shown, of another code neither.
pub flag-colo_location :
    (code : Text)
    → (is_empty (colo_location code).0 ≡ not (is_some (find_colo code colo_locations)))
      × (is_empty (country_flag (colo_location code).1)
          ≡ not (is_some (find_colo code colo_locations)))
unfolding colo_location
flag-colo_location code = elim (Option-cases (find_colo code colo_locations)) [
  | inl unknown ↦ rw (unknown, colo_location) (refl, country_flag_empty)
  | inr (c, known) ↦
      let full = complete-find_colo code colo_locations c table-all_complete known in
      rw (known, colo_location) (ground (arith, full))
]
