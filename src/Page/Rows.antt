-- ===== src/Page/Rows.antt =====
-- The lines of a text view: each is shown or left out, and has a label and a value.
use ip_unt1_com.Prelude.{
  Bool, true, false, not, List, [], ◌∷◌, ◌++◌, Text, bytes, is_empty, if◌then◌else◌,
}

pub record Row : Type 0 where
  pub shown : Bool
  pub label : Text
  pub value : Text

-- A line that is always there, one that a test admits, and one that shows a value if it has one.
abbrev pub always : Text → Text → Row
always label value = record { shown = true; label = label; value = value }

abbrev pub only_if : Bool → Text → Text → Row
only_if b label value = record { shown = b; label = label; value = value }

abbrev pub nonempty : Text → Text → Row
nonempty label value = only_if (not (is_empty value)) label value

unfoldable pub print_row : Text → Row → Text
print_row sep r = if r.shown then r.label ++ (sep ++ (r.value ++ 10 ∷ [])) else []

-- The labels and the values are separated by `sep`.
unfoldable pub print_rows : Text → List Row → Text
print_rows sep [] = []
print_rows sep (r ∷ rs) = print_row sep r ++ print_rows sep rs

abbrev pub true_false : Bool → Text
true_false true = bytes "true"
true_false false = bytes "false"
