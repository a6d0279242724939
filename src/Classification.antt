-- ===== src/Classification.antt =====
-- `classifyRun` of src/core/overlap.js: what becomes of each pending voucher of a run.
pub mod Migrated
pub mod Run
pub mod Pending
pub mod Settled
use eco_green_zoho_migration.Base.{
  ℕ, Text, text, Bool, true, false, not, ◌&&◌, Option, none, some, List, [], ◌∷◌, ◌++◌, filter,
  find, exists, if◌then◌else◌, truthy, or_empty, ◌==◌, text_Eq, nat_Eq,
}
use eco_green_zoho_migration.Errors.{illegal_transition, run_move}
use eco_green_zoho_migration.States.{RunState, RunState_Eq, run_transitions, allows}
use eco_green_zoho_migration.Money.Digits.{print_digits}
use eco_green_zoho_migration.Cutover.{
  CutoverRule, Dates, Eligibility, EligibilityReason, rule_missing, live_start_unverified,
  before_migration_from, after_cutover, late_or_back_posted, in_window, resolve_cutover,
  evaluate_eligibility,
}
use eco_green_zoho_migration.Mapping.{MappingRule}
use eco_green_zoho_migration.Overlap.{
  SpEvidence, OverlapView, OverlapClass, Decision, Reasoning, already_posted, classify_overlap,
  or_else, smart_pharma_already_posted, partial_or_ambiguous_overlap, not_applicable, migrate,
}
use eco_green_zoho_migration.Store.{
  Action, pure, gets, modify, throw_if, for_each, ◌>>=◌, ◌>>◌, Store, Voucher, Disposition,
  Disposition_Eq, ExtractionRun, OverlapCandidate, update_voucher, get_run, update_run, Json, null,
  values, key,
}
use eco_green_zoho_migration.Audit.{Context, Entry, entry, emit}
use eco_green_zoho_migration.Exceptions.{Condition, raise}
use eco_green_zoho_migration.Transform.Run.{actor_or_worker}

-- The approved rules that a run is classified by.
pub record Gates : Type 0 where
  pub matrix : List CutoverRule
  pub routes : List MappingRule
  pub sp_evidence : List SpEvidence

-- A row of vouchers has no `source_modified_at` and no `modified_at`.
abbrev pub dates_of : Voucher → Dates
dates_of v = record { transaction_date = v.transaction_date; modified = none }

abbrev pub rule_for : Gates → Voucher → Option CutoverRule
rule_for g v = resolve_cutover g.matrix (record {
  branch_code = v.branch_code;
  voucher_type = v.source_transaction_type;
  payment_method = v.payment_method;
})

abbrev pub view_of : Voucher → OverlapView
view_of v = record {
  branch_code = v.branch_code;
  transaction_date = v.transaction_date;
  voucher_type = v.source_transaction_type;
  payment_method = v.payment_method;
  tax_bucket = v.tax_bucket;
  amount = if not (v.debit_total == text "0.00") then v.debit_total else v.credit_total;
  reference_no = v.source_document_no;
}

-- `rule?.smart_pharma_coverage_status`
abbrev pub coverage_of : Option CutoverRule → Option Text
coverage_of none = none
coverage_of (some r) = r.smart_pharma_coverage_status

abbrev pub overlap_of : Gates → Voucher → Decision
overlap_of g v =
    classify_overlap (coverage_of (rule_for g v)) (view_of v)
      (filter (λ ev. ev.branch_code == v.branch_code) g.sp_evidence)

abbrev pub has_route : Gates → Voucher → Bool
has_route g v = exists (λ r. r.source_key == v.source_transaction_type) g.routes

-- What the loop comes to for a pending voucher.
pub data Verdict : Type 0 where
  inventory_only : Verdict
  outside_window not_eligible : EligibilityReason → Verdict
  posted_already ambiguous : Decision → Verdict
  unmapped_module migrates : Decision → Verdict

abbrev pub on_class : Gates → Voucher → Decision → OverlapClass → Verdict
on_class g v d smart_pharma_already_posted = posted_already d
on_class g v d partial_or_ambiguous_overlap = ambiguous d
on_class g v d not_applicable = if has_route g v then migrates d else unmapped_module d
on_class g v d migrate = if has_route g v then migrates d else unmapped_module d

abbrev pub on_reason : EligibilityReason → Verdict
on_reason before_migration_from = outside_window before_migration_from
on_reason after_cutover = outside_window after_cutover
on_reason rule_missing = not_eligible rule_missing
on_reason live_start_unverified = not_eligible live_start_unverified
on_reason late_or_back_posted = not_eligible late_or_back_posted
on_reason in_window = not_eligible in_window

unfoldable pub judge : Gates → Voucher → Verdict
judge g v =
    let e = evaluate_eligibility (rule_for g v) (dates_of v) in
    if v.source_transaction_type == text "STOCK_ADJ"
    then inventory_only
    else if e.eligible
    then on_class g v (overlap_of g v) (overlap_of g v).class
    else on_reason e.reason
