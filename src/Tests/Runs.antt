-- ===== src/Tests/Runs.antt =====
-- Runs: their files, summaries, bridges and balances.
use eco_green_zoho_migration.Base.{
  Text, text, text_eq, ◌≡◌, ◌≢◌, ◌↔◌, refl, none, some, List, [], ◌∷◌, map, filter, length, pos,
  ◌+ℤ◌, All, trim, true, false, ◌==◌, text_Eq,
}
use eco_green_zoho_migration.Errors.{ok}
use eco_green_zoho_migration.Money.{parse_money}
use eco_green_zoho_migration.Money.Digits.{digits_value}
use eco_green_zoho_migration.Store.{Voucher, SourceLine, Disposition, Disposition_Eq, ReconStatus}
use eco_green_zoho_migration.Fallible.{steps, sum_of, read_money}
use eco_green_zoho_migration.Fallible.Sums.{total}
use eco_green_zoho_migration.Csv.{parse_csv}
use eco_green_zoho_migration.Csv.Printed.{print_rows}
use eco_green_zoho_migration.Csv.RoundTrip.{parse_csv-print_rows}
use eco_green_zoho_migration.Bridge
use eco_green_zoho_migration.Bridge.File
use eco_green_zoho_migration.Bridge.Groups.{ids_in, bridge_is_partition}
use eco_green_zoho_migration.Bridge.Verdict
use eco_green_zoho_migration.Bridge.Verdict.{layer_b_passes_iff}
use eco_green_zoho_migration.Summarise
use eco_green_zoho_migration.Summarise.Rollups.{ledger_sum, rollups_are_sums}
use eco_green_zoho_migration.Balance
use eco_green_zoho_migration.Balance.Accounts.{AllKeys, inputs_of}
use eco_green_zoho_migration.Balance.Explained.{IsRead, IsExplained, balance_passes_iff}
use eco_green_zoho_migration.Classification
use eco_green_zoho_migration.Classification.Migrated.{is_migrated, judge_migrates_iff}
use eco_green_zoho_migration.Cutover.{evaluate_eligibility}
use eco_green_zoho_migration.Tests.Data.{voucher}

-- A cell with a quote and a delimiter, and an empty cell.
abbrev header : List Text
header = text "a" ∷ text "b" ∷ []

abbrev cells : List Text
cells = text "x\",y" ∷ [] ∷ []

parse_csv-print_rows_example :
    parse_csv b',' (print_rows b',' (header ∷ cells ∷ []))
    ≡ ok (record { header = header; rows = cells ∷ [] })
parse_csv-print_rows_example =
    parse_csv-print_rows b',' header (cells ∷ []) (refl, refl)
      (((refl, tt), ((refl, tt), tt)), (((refl, (refl, (refl, (refl, tt)))), (tt, tt)), tt))
      (refl, tt)

-- Two vouchers, one of them blocked.
abbrev vouchers : List Voucher
vouchers =
    voucher
    ∷ record voucher { id = 2; disposition = Disposition.blocked; debit_total = text "1.00" }
    ∷ []

bridge_is_partition_example :
    (b : Bridge.Bridge) × (Bridge.compute_bridge vouchers ≡ ok b)
    × (b.debit ≡ total (pos 1250 ∷ pos 100 ∷ []))
    × (b.credit ≡ total (pos 1250 ∷ pos 1250 ∷ []))
    × (b.ties ≡ true)
    × ((k : Disposition)
        → ids_in k b.by_disposition ≡ map (λ v. v.id) (filter (λ v. v.disposition == k) vouchers))
    × (b.pending_count
        ≡ length (map (λ v. v.id) (filter (λ v. v.disposition == Disposition.pending) vouchers)))
unfolding steps read_money parse_money trim digits_value
bridge_is_partition_example =
    bridge_is_partition vouchers (pos 1250 ∷ pos 100 ∷ []) (pos 1250 ∷ pos 1250 ∷ []) refl refl

abbrev file : File.FileStats
file = record {
  row_count = some 4;
  debit_total = some (text "13.50");
  credit_total = some (text "25.00");
}

abbrev figures : Verdict.Figures file vouchers []
unfolding steps read_money parse_money trim digits_value ◌+ℤ◌
figures = record {
  file_debit = pos 1350;
  file_credit = pos 2500;
  debit = pos 1350;
  credit = pos 2500;
  rejected_debit = pos 0;
  rejected_credit = pos 0;
  file_debit_is = refl;
  file_credit_is = refl;
  debit_is = refl;
  credit_is = refl;
  rejected_debit_is = refl;
  rejected_credit_is = refl;
}

layer_b_passes_iff_example :
    (s : ReconStatus) × (File.layer_b (some file) vouchers [] ≡ ok s)
    × ((s ≡ ReconStatus.pass) ↔ (
        All (λ v. v.disposition ≢ Disposition.pending) vouchers
        × All Verdict.IsContained vouchers
        × Verdict.IsCovered file vouchers [] figures))
layer_b_passes_iff_example = layer_b_passes_iff file vouchers [] figures

abbrev line : Text → Text → Text → SourceLine
line kind debit credit = record {
  run_id = text "r1";
  voucher_id = text "v1";
  line_no = 1;
  ledger_code = text "L1";
  voucher_type = kind;
  debit = debit;
  credit = credit;
  tax_bucket = none;
  reference_no = none;
  narration = none;
}

abbrev lines : List SourceLine
lines =
    line (text "SALE") (text "12.50") (text "0.00")
    ∷ line (text "BUY") (text "0.00") (text "2.00")
    ∷ []

rollups_are_sums_example :
    (g : Summarise.Gathered) × (Summarise.gather_from Summarise.nothing_gathered lines ≡ ok g)
    × (sum_of (λ l. read_money l.debit) (filter (λ l. l.ledger_code == text "L1") lines)
        ≡ ok (ledger_sum (λ x. x.debit) (text "L1") g.stars))
    × (ledger_sum (λ x. x.debit) (text "L1") g.groups
        ≡ ledger_sum (λ x. x.debit) (text "L1") g.stars)
    × (sum_of (λ l. read_money l.credit) (filter (λ l. l.ledger_code == text "L1") lines)
        ≡ ok (ledger_sum (λ x. x.credit) (text "L1") g.stars))
    × (ledger_sum (λ x. x.credit) (text "L1") g.groups
        ≡ ledger_sum (λ x. x.credit) (text "L1") g.stars)
unfolding steps read_money parse_money trim digits_value
rollups_are_sums_example =
    rollups_are_sums (text "L1") lines (pos 1250 ∷ pos 0 ∷ []) (pos 0 ∷ pos 200 ∷ [])
      ((refl, (refl, tt)), ((refl, (refl, tt)), tt)) refl refl

-- A movement of 5.00 that is authorised.
abbrev inputs : Balance.Inputs
inputs = record {
  baseline = (text "A1", text "10.00") ∷ [];
  migration = [];
  sp = [];
  post_run = (text "A1", text "15.00") ∷ [];
  authorized_manual = (text "A1", text "5.00") ∷ [];
  manual_observed = [];
  tolerance = text "0.00";
}

abbrev read : IsRead inputs (text "A1")
unfolding steps read_money parse_money trim digits_value text_eq
read = (
  (pos 1000, refl),
  ((pos 0, refl), ((pos 0, refl), ((pos 1500, refl), ((pos 500, refl), ((pos 0, refl), tt))))),
)

balance_passes_iff_example :
    (b : Balance.BalanceBridge) × (Balance.compute_balance_bridge inputs ≡ ok b)
    × ((b.status ≡ ReconStatus.pass)
        ↔ All (AllKeys (IsExplained inputs (pos 0))) (inputs_of inputs))
unfolding steps read_money parse_money trim digits_value text_eq
balance_passes_iff_example =
    balance_passes_iff inputs (pos 0) refl
      ((read, tt), (tt, (tt, ((read, tt), ((read, tt), (tt, tt))))))

abbrev gates : Classification.Gates
gates = record { matrix = []; routes = []; sp_evidence = [] }

judge_migrates_iff_example : (is_migrated (Classification.judge gates voucher) ≡ true) ↔ (
    ((voucher.source_transaction_type == text "STOCK_ADJ") ≡ false)
    × ((evaluate_eligibility
          (Classification.rule_for gates voucher)
          (Classification.dates_of voucher)).eligible
        ≡ true)
    × (Classification.coverage_of (Classification.rule_for gates voucher)
        ≡ some (text "NOT_COVERED"))
    × (Classification.has_route gates voucher ≡ true))
judge_migrates_iff_example = judge_migrates_iff gates voucher
