-- ===== src/Summarise.antt =====
-- `summariseLines` of src/core/summarise.js: the lines of a run by ledger and voucher type, with a
-- rollup ('*') for each ledger.
pub mod Keys
pub mod Rollups
pub mod Run
use eco_green_zoho_migration.Base.{
  ℕ, ◌+◌, Text, text, Bool, true, false, not, ◌&&◌, ◌||◌, List, [], ◌∷◌, ◌++◌, map, length,
  includes, if◌then◌else◌, ◌==◌, text_Eq, text_lt, ℤ, pos, ◌+ℤ◌,
}
use eco_green_zoho_migration.Errors.{Result, ok, err}
use eco_green_zoho_migration.Money.{format_money}
use eco_green_zoho_migration.Store.Rows.{SourceLine}
use eco_green_zoho_migration.Fallible.{steps, ◌>>=◌, read_money}

-- An entry of one of the maps; `vouchers` is a set.
pub record Group : Type 0 where
  pub group_key : Text
  pub ledger_code : Text
  pub voucher_type : Text
  pub debit : ℤ
  pub credit : ℤ
  pub vouchers : List Text
  pub line_count : ℕ

abbrev pub new_group : (key ledger voucher_type : Text) → Group
new_group key ledger voucher_type = record {
  group_key = key;
  ledger_code = ledger;
  voucher_type = voucher_type;
  debit = pos 0;
  credit = pos 0;
  vouchers = [];
  line_count = 0;
}

-- `set.add(x)`
abbrev add_once : Text → List Text → List Text
add_once x xs = if includes xs x then xs else xs ++ x ∷ []

abbrev pub put_line : SourceLine → ℤ → ℤ → Group → Group
put_line l d c g = record g {
  debit = g.debit +ℤ d;
  credit = g.credit +ℤ c;
  vouchers = add_once l.voucher_id g.vouchers;
  line_count = g.line_count + 1;
}

-- `touch`, and the changes to the entry that it returns: a new entry goes last.
unfoldable pub touch : (key ledger voucher_type : Text) → (Group → Group) → List Group → List Group
touch key ledger voucher_type change [] = change (new_group key ledger voucher_type) ∷ []
touch key ledger voucher_type change (g ∷ gs) =
    if g.group_key == key then change g ∷ gs else g ∷ touch key ledger voucher_type change gs

pub record Gathered : Type 0 where
  pub groups : List Group
  pub stars : List Group

-- '\u0000' between the two
abbrev pub type_key : SourceLine → Text
type_key l = l.ledger_code ++ 0 ∷ l.voucher_type

abbrev pub add_line : SourceLine → ℤ → ℤ → Gathered → Gathered
add_line l d c g = record {
  groups = touch (type_key l) l.ledger_code l.voucher_type (put_line l d c) g.groups;
  stars = touch l.ledger_code l.ledger_code (text "*") (put_line l d c) g.stars;
}

unfoldable pub gather_from : Gathered → List SourceLine → Result Gathered
unfolding steps
gather_from g [] = ok g
gather_from g (l ∷ ls) = do
  d ← read_money l.debit
  c ← read_money l.credit
  gather_from (add_line l d c g) ls

abbrev pub nothing_gathered : Gathered
nothing_gathered = record { groups = []; stars = [] }

-- The comparison of the sort: by ledger, then by type with '*' last.
unfoldable pub comes_before : Group → Group → Bool
comes_before a b =
    if not (a.ledger_code == b.ledger_code)
    then text_lt a.ledger_code b.ledger_code
    else if a.voucher_type == b.voucher_type
    then false
    else if a.voucher_type == text "*"
    then false
    else if b.voucher_type == text "*"
    then true
    else text_lt a.voucher_type b.voucher_type

-- The sort keeps the order of entries that it does not tell apart: each goes in after those.
abbrev insert_group : Group → List Group → List Group
insert_group a [] = a ∷ []
insert_group a (b ∷ bs) = if comes_before a b then a ∷ b ∷ bs else b ∷ insert_group a bs

abbrev pub sort_groups : List Group → List Group → List Group
sort_groups [] sorted = sorted
sort_groups (a ∷ rest) sorted = sort_groups rest (insert_group a sorted)

pub record SummaryRow : Type 0 where
  pub ledger_code : Text
  pub voucher_type : Text
  pub debit : Text
  pub credit : Text
  pub txn_count : ℕ
  pub line_count : ℕ

abbrev pub summary_row : Group → SummaryRow
summary_row g = record {
  ledger_code = g.ledger_code;
  voucher_type = g.voucher_type;
  debit = format_money g.debit;
  credit = format_money g.credit;
  txn_count = length g.vouchers;
  line_count = g.line_count;
}

unfoldable pub summarise_lines : List SourceLine → Result (List SummaryRow)
unfolding steps
summarise_lines lines = do
  g ← gather_from nothing_gathered lines
  ok (map summary_row (sort_groups (g.groups ++ g.stars) []))
