-- ===== src/Csv.antt =====
-- `parseCsv` of src/core/csv.js: the text of a delivered file as a header and rows of cells.
pub mod Printed
pub mod Reading
pub mod RoundTrip
use eco_green_zoho_migration.Base.{
  ℕ, suc, ◌+◌, Text, Bool, true, false, not, ◌&&◌, ◌||◌, Option, none, some, List, [], ◌∷◌, ◌++◌,
  length, if◌then◌else◌, nat_eq,
}
use eco_green_zoho_migration.Errors.{Result, ok, err, csv_parse}
use eco_green_zoho_migration.Fallible.{steps, ◌>>=◌, ◌>>◌, throw_when}

pub record Row : Type 0 where
  pub cells : List Text
  pub line : ℕ

-- The local variables of the loop, but for the position.
pub record Scanner : Type 0 where
  pub field : Text
  pub row : List Text
  pub all_rows : List Row
  pub in_quotes : Bool
  pub line : ℕ
  pub row_start_line : ℕ

abbrev pub quote : ℕ
quote = b'"'

abbrev pub line_feed : ℕ
line_feed = 10

abbrev pub carriage_return : ℕ
carriage_return = 13

abbrev pub is_next : ℕ → Text → Bool
is_next c [] = false
is_next c (d ∷ s) = nat_eq d c

abbrev pub has_no_text : Text → Bool
has_no_text [] = true
has_no_text (c ∷ s) = false

abbrev pub add_to_field : ℕ → Scanner → Scanner
add_to_field c st = record st { field = st.field ++ c ∷ [] }

abbrev pub end_field : Scanner → Scanner
end_field st = record st { row = st.row ++ st.field ∷ []; field = [] }

abbrev pub end_row : Scanner → Scanner
end_row st = record st {
  field = [];
  row = [];
  all_rows =
      st.all_rows ++ record { cells = st.row ++ st.field ∷ []; line = st.row_start_line } ∷ [];
}

abbrev pub next_row : Scanner → Scanner
next_row st = record (end_row st) { line = st.line + 1; row_start_line = st.line + 1 }

-- One turn of the loop, on the character at `i` and the text after it. The Boolean says that the
-- character after it is passed over too: `i += 2`.
unfoldable pub step_quoted : ℕ → Text → Scanner → Scanner × Bool
step_quoted c rest st =
    if nat_eq c quote
    then if is_next quote rest
      then (add_to_field quote st, true)
      else (record st { in_quotes = false }, false)
    else if nat_eq c carriage_return
    then (record (add_to_field line_feed st) { line = st.line + 1 }, is_next line_feed rest)
    else if nat_eq c line_feed
    then (record (add_to_field line_feed st) { line = st.line + 1 }, false)
    else (add_to_field c st, false)

unfoldable pub step_plain : (delimiter : ℕ) → ℕ → Text → Scanner → Scanner × Bool
step_plain delimiter c rest st =
    if nat_eq c quote && has_no_text st.field
    then (record st { in_quotes = true }, false)
    else if nat_eq c delimiter
    then (end_field st, false)
    else if nat_eq c carriage_return
    then (next_row st, is_next line_feed rest)
    else if nat_eq c line_feed
    then (next_row st, false)
    else (add_to_field c st, false)

unfoldable pub step : (delimiter : ℕ) → ℕ → Text → Scanner → Scanner × Bool
step delimiter c rest st =
    if st.in_quotes then step_quoted c rest st else step_plain delimiter c rest st

-- `while (i < n)`; a character that was passed over is skipped.
unfoldable pub scan : (delimiter : ℕ) → (skip : Bool) → Text → Scanner → Scanner
scan delimiter skip [] st = st
scan delimiter true (c ∷ rest) st = scan delimiter false rest st
scan delimiter false (c ∷ rest) st =
    let next = step delimiter c rest st in scan delimiter next.1 rest next.0

abbrev pub start : Scanner
start = record {
  field = [];
  row = [];
  all_rows = [];
  in_quotes = false;
  line = 1;
  row_start_line = 1;
}

-- A last row that no line end closes is closed.
abbrev pub has_open_row : Scanner → Bool
has_open_row st = not (has_no_text st.field) || elim st.row [ [] ↦ false | f ∷ fs ↦ true ]

unfoldable pub finish : Scanner → Result (List Row)
finish st =
    if st.in_quotes
    then err (csv_parse st.row_start_line)
    else ok (if has_open_row st then (end_row st).all_rows else st.all_rows)

unfoldable pub check_rows : ℕ → List Row → Result (List (List Text))
unfolding steps
check_rows width [] = ok []
check_rows width (r ∷ rs) =
    throw_when (not (nat_eq (length r.cells) width)) (csv_parse r.line)
    >> (check_rows width rs >>= λ rest. ok (r.cells ∷ rest))

pub record Parsed : Type 0 where
  pub header : List Text
  pub rows : List (List Text)

unfoldable pub with_header : List Row → Result Parsed
unfolding steps
with_header [] = ok (record { header = []; rows = [] })
with_header (h ∷ rs) =
    check_rows (length h.cells) rs >>= λ rows. ok (record { header = h.cells; rows = rows })

abbrev pub without_bom : Text → Text
without_bom [] = []
without_bom (c ∷ s) = if nat_eq c 0xfeff then s else c ∷ s

unfoldable pub parse_csv : (delimiter : ℕ) → Text → Result Parsed
unfolding steps
parse_csv delimiter s = do
  rows ← finish (scan delimiter false (without_bom s) start)
  with_header rows
