-- ===== src/Colo/Row.antt =====
-- colo.go: a row of the table.
use ip_unt1_com.Prelude.{Text, bytes, String}

-- A data centre: its code, its city and the code of its country.
pub record Colo : Type 0 where
  pub code : Text
  pub city : Text
  pub country : Text

abbrev pub colo : String → String → String → Colo
colo code city country = record { code = bytes code; city = bytes city; country = bytes country }
