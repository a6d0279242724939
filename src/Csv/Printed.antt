-- ===== src/Csv/Printed.antt =====
-- A table printed with every cell in quotes, as RFC 4180 has it; the program only reads CSV.
use eco_green_zoho_migration.Base.{ℕ, Text, List, [], ◌∷◌, ◌++◌, if◌then◌else◌, nat_eq}
use eco_green_zoho_migration.Csv.{quote, line_feed}

abbrev pub doubled : Text → Text
doubled [] = []
doubled (c ∷ s) = if nat_eq c quote then quote ∷ quote ∷ doubled s else c ∷ doubled s

abbrev pub print_cell : Text → Text
print_cell s = quote ∷ doubled s ++ quote ∷ []

abbrev pub print_row : (delimiter : ℕ) → List Text → Text
print_row delimiter [] = []
print_row delimiter (f ∷ []) = print_cell f
print_row delimiter (f ∷ g ∷ fs) = print_cell f ++ delimiter ∷ print_row delimiter (g ∷ fs)

abbrev pub print_rows : (delimiter : ℕ) → List (List Text) → Text
print_rows delimiter [] = []
print_rows delimiter (r ∷ rs) = print_row delimiter r ++ line_feed ∷ print_rows delimiter rs
