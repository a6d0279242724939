-- ===== src/Csv/Reading.antt =====
-- How the scanner reads what was printed: a cell, a row, a table.
use eco_green_zoho_migration.Base.{
  ℕ, ◌+◌, Text, ◌≡◌, refl, sym, ap, ◌∙◌, Bool, true, false, List, [], ◌∷◌, ◌++◌, nat_eq, arith,
  append_assoc, All, map, Bool-cases, inl, inr, nat_eq_iff, same_refl, nat_Eq,
}
use mathlib.Core.List.{append-nil}
use eco_green_zoho_migration.Csv.{
  Row, Scanner, quote, line_feed, carriage_return, is_next, step, step_quoted, step_plain, scan,
}
use eco_green_zoho_migration.Csv.Printed.{doubled, print_cell, print_row, print_rows}

-- The cells that come back as they were: a carriage return is read as a line feed.
abbrev pub IsPlain : Text → Type 0
IsPlain f = All (λ c. nat_eq c carriage_return ≡ false) f

abbrev pub at : Text → List Text → List Row → Bool → ℕ → ℕ → Scanner
at f row rows q line start = record {
  field = f;
  row = row;
  all_rows = rows;
  in_quotes = q;
  line = line;
  row_start_line = start;
}

move :
    (delimiter c : ℕ) (rest : Text) (st : Scanner) (next : Scanner × Bool)
    → step delimiter c rest st ≡ next
    → scan delimiter false (c ∷ rest) st ≡ scan delimiter next.1 rest next.0
unfolding scan
move delimiter c rest st next h = ap (λ x. scan delimiter x.1 rest x.0) h

module _ (delimiter c : ℕ) (rest g : Text) (row : List Text) (rows : List Row)
    (line start : ℕ) where
  -- A character inside quotes that is no quote and no line end; and a line feed there.
  move_inside :
      nat_eq c quote ≡ false
      → nat_eq c carriage_return ≡ false
      → nat_eq c line_feed ≡ false
      → scan delimiter false (c ∷ rest) (at g row rows true line start)
        ≡ scan delimiter false rest (at (g ++ c ∷ []) row rows true line start)
  unfolding step step_quoted
  move_inside p q r =
      move delimiter c rest (at g row rows true line start)
        (at (g ++ c ∷ []) row rows true line start, false) (rw p (rw q (rw r refl)))

  move_feed :
      nat_eq c quote ≡ false
      → nat_eq c carriage_return ≡ false
      → nat_eq c line_feed ≡ true
      → scan delimiter false (c ∷ rest) (at g row rows true line start)
        ≡ scan delimiter false rest (at (g ++ line_feed ∷ []) row rows true (line + 1) start)
  unfolding step step_quoted
  move_feed p q r =
      move delimiter c rest (at g row rows true line start)
        (at (g ++ line_feed ∷ []) row rows true (line + 1) start, false) (rw p (rw q (rw r refl)))

-- A cell's characters, up to the quote that ends it.
read_body :
    (delimiter : ℕ) (f rest g : Text) (row : List Text) (rows : List Row) (line start : ℕ)
    → IsPlain f
    → is_next quote rest ≡ false
    → (n : ℕ) × (scan delimiter false (doubled f ++ quote ∷ rest) (at g row rows true line start)
        ≡ scan delimiter false rest (at (g ++ f) row rows false n start))
unfolding scan step step_quoted
read_body delimiter [] rest g row rows line start h k = (line, rw k (rw (append-nil g) refl))
read_body delimiter (c ∷ f) rest g row rows line start h k = elim (Bool-cases (nat_eq c quote)) [
  | inl e ↦
      let (n, p) = read_body delimiter f rest (g ++ quote ∷ []) row rows line start h.1 k in
      (n, rw e (p ∙ regroup n quote (sym ((nat_eq_iff c quote).0 e))))
  | inr e ↦ elim (Bool-cases (nat_eq c line_feed)) [
    | inl l ↦
        let (n, p) =
          read_body delimiter f rest (g ++ line_feed ∷ []) row rows (line + 1) start h.1 k in
        (
          n,
          rw e (
              move_feed delimiter c (doubled f ++ quote ∷ rest) g row rows line start e h.0 l
              ∙ p
              ∙ regroup n line_feed (sym ((nat_eq_iff c line_feed).0 l))),
        )
    | inr l ↦
        let (n, p) = read_body delimiter f rest (g ++ c ∷ []) row rows line start h.1 k in
        (
          n,
          rw e (
              move_inside delimiter c (doubled f ++ quote ∷ rest) g row rows line start e h.0 l
              ∙ p
              ∙ regroup n c refl),
        )
  ]
]
  where
    regroup :
        (n d : ℕ)
        → d ≡ c
        → scan delimiter false rest (at ((g ++ d ∷ []) ++ f) row rows false n start)
          ≡ scan delimiter false rest (at (g ++ c ∷ f) row rows false n start)
    regroup n d same = rw (append_assoc g (d ∷ []) f) (rw same refl)

-- A cell, from before its first quote.
read_cell :
    (delimiter : ℕ) (f rest : Text) (row : List Text) (rows : List Row) (line start : ℕ)
    → IsPlain f
    → is_next quote rest ≡ false
    → (n : ℕ) × (scan delimiter false (print_cell f ++ rest) (at [] row rows false line start)
        ≡ scan delimiter false rest (at f row rows false n start))
unfolding scan step step_plain
read_cell delimiter f rest row rows line start h k =
    let (n, p) = read_body delimiter f rest [] row rows line start h k in
    (
      n,
      ap (λ s. scan delimiter false s (at [] row rows true line start))
            (append_assoc (doubled f) (quote ∷ []) rest)
          ∙ p,
    )

-- The delimiter is none of the characters that the scanner reads otherwise.
abbrev pub IsDelimiter : ℕ → Type 0
IsDelimiter d = (nat_eq d quote ≡ false) × (nat_eq d line_feed ≡ false)

module _ (delimiter : ℕ) (d : IsDelimiter delimiter) (rest f : Text) (row : List Text)
    (rows : List Row) (line start : ℕ) where
  -- After a cell: the delimiter, or the end of the row.
  end_of_cell :
      scan delimiter false (delimiter ∷ rest) (at f row rows false line start)
      ≡ scan delimiter false rest (at [] (row ++ f ∷ []) rows false line start)
  unfolding step step_plain
  end_of_cell =
      move delimiter delimiter rest (at f row rows false line start)
        (at [] (row ++ f ∷ []) rows false line start, false)
        (rw d.0 (rw (same_refl delimiter) refl))

  end_of_row :
      scan delimiter false (line_feed ∷ rest) (at f row rows false line start)
      ≡ scan delimiter false rest (
          at [] []
            (rows ++ record { cells = row ++ f ∷ []; line = start } ∷ [])
            false
            (line + 1)
            (line + 1))
  unfolding step step_plain
  end_of_row =
      move delimiter line_feed rest (at f row rows false line start)
        (
          at [] [] (rows ++ record { cells = row ++ f ∷ []; line = start } ∷ []) false (line + 1)
              (line + 1),
          false,
        )
        (rw (flip delimiter line_feed d.1) refl)
    where
      flip : (a b : ℕ) → nat_eq a b ≡ false → nat_eq b a ≡ false
      flip a b h = ground arith

-- A row, with the line feed that ends it.
read_row :
    (delimiter : ℕ) (f : Text) (fs : List Text) (rest : Text) (row : List Text) (rows : List Row)
    (line start : ℕ)
    → IsDelimiter delimiter
    → All IsPlain (f ∷ fs)
    → (n : ℕ) × (scan delimiter false
          (print_row delimiter (f ∷ fs) ++ line_feed ∷ rest)
          (at [] row rows false line start)
        ≡ scan delimiter false rest
            (at [] [] (rows ++ record { cells = row ++ f ∷ fs; line = start } ∷ []) false n n))
read_row delimiter f [] rest row rows line start d h =
    let (n, p) = read_cell delimiter f (line_feed ∷ rest) row rows line start h.0 refl in
    (n + 1, p ∙ end_of_row delimiter d rest f row rows n start)
read_row delimiter f (g ∷ fs) rest row rows line start d h =
    let others = print_row delimiter (g ∷ fs) ++ line_feed ∷ rest in
    let (n, p) = read_cell delimiter f (delimiter ∷ others) row rows line start h.0 d.0 in
    let (m, q) = read_row delimiter g fs rest (row ++ f ∷ []) rows n start d h.1 in
    (
      m,
      ap (λ s. scan delimiter false s (at [] row rows false line start))
            (append_assoc (print_cell f) (delimiter ∷ print_row delimiter (g ∷ fs))
              (line_feed ∷ rest))
          ∙ p
          ∙ end_of_cell delimiter d others f row rows n start
          ∙ q
          ∙ ap
              (λ cs.
                scan delimiter false rest
                  (at [] [] (rows ++ record { cells = cs; line = start } ∷ []) false m m))
              (append_assoc row (f ∷ []) (g ∷ fs)),
    )

abbrev pub cells_of : List Row → List (List Text)
cells_of rows = map (λ r. r.cells) rows

-- A row of a table has at least one cell, and its cells come back as they were.
abbrev pub IsRow : List Text → Type 0
IsRow [] = ⊥
IsRow (f ∷ fs) = All IsPlain (f ∷ fs)

-- The rows of a table, with some line numbers.
pub read_rows :
    (delimiter : ℕ) (table : List (List Text)) (rows : List Row) (line : ℕ)
    → IsDelimiter delimiter
    → All IsRow table
    → (read : List Row) × (n : ℕ) × (cells_of read ≡ table)
      × (scan delimiter false (print_rows delimiter table) (at [] [] rows false line line)
          ≡ at [] [] (rows ++ read) false n n)
unfolding scan
read_rows delimiter [] rows line d h = ([], line, refl, rw (append-nil rows) refl)
read_rows delimiter ([] ∷ table) rows line d h = absurd h.0
read_rows delimiter ((f ∷ fs) ∷ table) rows line d h =
    let (n, p) = read_row delimiter f fs (print_rows delimiter table) [] rows line line d h.0 in
    let first : Row = record { cells = f ∷ fs; line = line } in
    let (read, m, e, q) = read_rows delimiter table (rows ++ first ∷ []) n d h.1 in
    (
      first ∷ read,
      m,
      ap (λ t. (f ∷ fs) ∷ t) e,
      p ∙ q ∙ ap (λ rs. at [] [] rs false m m) (append_assoc rows (first ∷ []) read),
    )
