-- ===== src/Bridge/File.antt =====
-- `compareBridgeToFile` of src/core/bridge.js, and the verdict of `reconcileLayerB`.
use eco_green_zoho_migration.Base.{
  ℕ, suc, ◌+◌, Text, text, Bool, true, false, not, ◌||◌, Option, none, some, List, [], ◌∷◌, length,
  every, if◌then◌else◌, ◌==◌, ℤ, pos, negsuc, ◌+ℤ◌, ◌-ℤ◌, int_Eq, nat_Eq, ltb,
}
use eco_green_zoho_migration.Errors.{Result, ok}
use eco_green_zoho_migration.Money.{format_money}
use eco_green_zoho_migration.Money.Digits.{print_digits}
use eco_green_zoho_migration.Store.Rows.{Voucher, ReconStatus}
use eco_green_zoho_migration.Fallible.{steps, ◌>>=◌, sum_of, read_money}
use eco_green_zoho_migration.Bridge.{debit_of, credit_of, Bridge, compute_bridge}

-- The observed figures of the file, of which each may be missing.
pub record FileStats : Type 0 where
  pub row_count : Option ℕ
  pub debit_total : Option Text
  pub credit_total : Option Text

-- A row that was refused at load; it never became part of a voucher.
pub record RejectedRow : Type 0 where
  pub debit : Text
  pub credit : Text

pub data ControlStatus : Type 0 where
  match_ diff missing_expected : ControlStatus

pub record Control : Type 0 where
  pub control_key : Text
  pub expected : Text
  pub actual : Text
  pub difference : Text
  pub status : ControlStatus

-- `String(n)` of a whole number
abbrev shown_int : ℤ → Text
shown_int (pos n) = print_digits n
shown_int (negsuc n) = b'-' ∷ print_digits (suc n)

abbrev status_of : Bool → ControlStatus
status_of same = if same then match_ else diff

unfoldable pub rows_control : ℕ → ℕ → Control
rows_control expected actual = record {
  control_key = text "bridge:file:rows";
  expected = print_digits expected;
  actual = print_digits actual;
  difference = shown_int (pos actual -ℤ pos expected);
  status = status_of (expected == actual);
}

unfoldable pub money_control : Text → ℤ → ℤ → Control
money_control key expected actual = record {
  control_key = key;
  expected = format_money expected;
  actual = format_money actual;
  difference = format_money (actual -ℤ expected);
  status = status_of (expected == actual);
}

abbrev pub rows_or_zero : Option ℕ → ℕ
rows_or_zero none = 0
rows_or_zero (some n) = n

abbrev pub amount_or_zero : Option Text → Text
amount_or_zero none = text "0.00"
amount_or_zero (some t) = t

-- `list.reduce((n, v) => n + Number(v.line_count ?? 0), 0)`
abbrev pub count_lines : ℕ → List Voucher → ℕ
count_lines n [] = n
count_lines n (v ∷ vs) = count_lines (n + v.line_count) vs

pub record FileBridge : Type 0 where
  pub controls : List Control
  pub rejected_count : ℕ
  pub rejected_debit : ℤ
  pub rejected_credit : ℤ

unfoldable pub compare_bridge_to_file :
    FileStats → List Voucher → List RejectedRow → Result FileBridge
unfolding steps
compare_bridge_to_file file vs rejected = do
  rejected_debit ← sum_of (λ r. read_money r.debit) rejected
  rejected_credit ← sum_of (λ r. read_money r.credit) rejected
  debit ← sum_of debit_of vs
  credit ← sum_of credit_of vs
  file_debit ← read_money (amount_or_zero file.debit_total)
  file_credit ← read_money (amount_or_zero file.credit_total)
  ok (record {
    controls =
        rows_control (rows_or_zero file.row_count) (count_lines 0 vs + length rejected)
        ∷ money_control (text "bridge:file:debit") file_debit (debit +ℤ rejected_debit)
        ∷ money_control (text "bridge:file:credit") file_credit (credit +ℤ rejected_credit)
        ∷ [];
    rejected_count = length rejected;
    rejected_debit = rejected_debit;
    rejected_credit = rejected_credit;
  })

-- Without a TRANSACTIONS file there is nothing to compare with.
abbrev pub missing_file : FileBridge
missing_file = record {
  controls =
      record {
        control_key = text "bridge:file:rows";
        expected = [];
        actual = [];
        difference = [];
        status = missing_expected;
      }
      ∷ [];
  rejected_count = 0;
  rejected_debit = pos 0;
  rejected_credit = pos 0;
}

unfoldable pub file_bridge : Option FileStats → List Voucher → List RejectedRow → Result FileBridge
file_bridge none vs rejected = ok missing_file
file_bridge (some file) vs rejected = compare_bridge_to_file file vs rejected

abbrev pub is_match : Control → Bool
is_match c = elim c.status [ match_ ↦ true | _ ↦ false ]

abbrev pub file_ties : FileBridge → Bool
file_ties f = every is_match f.controls

unfoldable pub verdict : Bridge → FileBridge → ReconStatus
verdict b f =
    if ltb 0 b.pending_count
      || not b.ties
      || not (file_ties f)
      || ltb 0 (length b.unbalanced_outside_blocked)
    then ReconStatus.fail
    else ReconStatus.pass

-- What `reconcileLayerB` finds, before it is written down.
unfoldable pub layer_b : Option FileStats → List Voucher → List RejectedRow → Result ReconStatus
unfolding steps
layer_b file vs rejected = do
  b ← compute_bridge vs
  f ← file_bridge file vs rejected
  ok (verdict b f)
