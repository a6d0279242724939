-- ===== src/Csv/RoundTrip.antt =====
-- `parseCsv` reads back a printed table, and refuses one whose rows differ in width.
use mathlib.Core.Path.{subst}
use eco_green_zoho_migration.Base.{
  ℕ, Text, ◌≡◌, refl, sym, ap, ◌∙◌, false, not, List, [], ◌∷◌, nat_eq, nat_eq_iff, length, arith,
  All, nat_Eq,
}
use eco_green_zoho_migration.Errors.{ok, csv_parse}
use eco_green_zoho_migration.Fallible.{steps}
use eco_green_zoho_migration.Fallible.Sums.{bind-eq-ok, ok-injective, throw_when-passed}
use eco_green_zoho_migration.Csv.{
  Row, scan, start, finish, check_rows, with_header, Parsed, parse_csv, without_bom,
}
use eco_green_zoho_migration.Csv.Printed.{print_rows}
use eco_green_zoho_migration.Csv.Reading.{IsDelimiter, IsRow, cells_of, read_rows}

abbrev pub HasWidth : ℕ → List Text → Type 0
HasWidth w cells = length cells ≡ w

check_rows-kept :
    (w : ℕ) (rows : List Row)
    → All (HasWidth w) (cells_of rows)
    → check_rows w rows ≡ ok (cells_of rows)
unfolding check_rows steps
check_rows-kept w [] h = refl
check_rows-kept w (r ∷ rs) h =
    rw ((nat_eq_iff (length r.cells) w).1 h.0) (rw (check_rows-kept w rs h.1) refl)

check_rows-widths :
    (w : ℕ) (rows : List Row) {table : List (List Text)}
    → check_rows w rows ≡ ok table
    → (table ≡ cells_of rows) × All (HasWidth w) table
unfolding check_rows steps
check_rows-widths w [] h = (sym (ok-injective h), rw (← ok-injective h) tt)
check_rows-widths w (r ∷ rs) h =
    let (e, h1) = throw_when-passed (not (nat_eq (length r.cells) w)) (csv_parse r.line) _ h in
    let (rest, p, h2) = bind-eq-ok (check_rows w rs) _ h1 in
    let (q, widths) = check_rows-widths w rs p in
    let same = ok-injective h2 in
    (
      sym same ∙ ap (λ t. r.cells ∷ t) q,
      subst (All (HasWidth w)) same ((nat_eq_iff (length r.cells) w).0 (ground (arith, e)), widths),
    )

with_header-read :
    (read : List Row) (header : List Text) (table : List (List Text))
    → cells_of read ≡ header ∷ table
    → All (HasWidth (length header)) table
    → with_header read ≡ ok (record { header = header; rows = table })
unfolding with_header steps
with_header-read [] header table e h = absurd cc
with_header-read (r ∷ rs) header table e h =
    let first : r.cells ≡ header = cc in
    let others : cells_of rs ≡ table = cc in
    rw first (rw (check_rows-kept (length header) rs (rw others h)) (rw others refl))

-- What is printed begins with a quote, and so has no byte order mark.
print_rows-no_bom :
    (delimiter : ℕ) (header : List Text) (table : List (List Text))
    → IsRow header
    → without_bom (print_rows delimiter (header ∷ table)) ≡ print_rows delimiter (header ∷ table)
print_rows-no_bom delimiter [] table h = absurd h
print_rows-no_bom delimiter (f ∷ []) table h = refl
print_rows-no_bom delimiter (f ∷ g ∷ fs) table h = refl

-- For a delimiter other than the quote and the line feed: a table with at least one cell in its header,
-- rows as wide as the header and no carriage return in any cell, printed with every cell in quotes,
-- is read back as itself. The cells may hold quotes, delimiters and line feeds.
pub parse_csv-print_rows :
    (delimiter : ℕ) (header : List Text) (table : List (List Text))
    → IsDelimiter delimiter
    → All IsRow (header ∷ table)
    → All (HasWidth (length header)) table
    → parse_csv delimiter (print_rows delimiter (header ∷ table))
      ≡ ok (record { header = header; rows = table })
unfolding parse_csv finish steps
parse_csv-print_rows delimiter header table d h w =
    let (read, n, e, p) = read_rows delimiter (header ∷ table) [] 1 d h in
    rw (print_rows-no_bom delimiter header table h.0)
      (rw p (with_header-read read header table e w))

with_header-widths :
    (rows : List Row) (p : Parsed)
    → with_header rows ≡ ok p
    → All (HasWidth (length p.header)) p.rows
unfolding with_header
with_header-widths [] p h = subst (λ q. All (HasWidth (length q.header)) q.rows) (ok-injective h) tt
with_header-widths (r ∷ rs) p h =
    let (rows, q, h1) = bind-eq-ok (check_rows (length r.cells) rs) _ h in
    subst (λ x. All (HasWidth (length x.header)) x.rows) (ok-injective h1)
      (check_rows-widths (length r.cells) rs q).1

-- Whatever the text: if it is read at all, every row is as wide as the header.
pub rows_are_rectangular :
    (delimiter : ℕ) (s : Text) (p : Parsed)
    → parse_csv delimiter s ≡ ok p
    → All (HasWidth (length p.header)) p.rows
unfolding parse_csv
rows_are_rectangular delimiter s p h =
    let (rows, q, h1) = bind-eq-ok (finish (scan delimiter false (without_bom s) start)) _ h in
    with_header-widths rows p h1
