-- ===== src/Classification/Run.antt =====
-- `classifyRun` of src/core/overlap.js: the verdict on each pending voucher of a run, and its traces.
use eco_green_zoho_migration.Base.{
  Text, text, not, ◌&&◌, Option, none, some, List, [], ◌∷◌, ◌++◌, filter, exists, if◌then◌else◌,
  or_empty, ◌==◌, text_Eq, nat_Eq,
}
use eco_green_zoho_migration.Errors.{illegal_transition, run_move}
use eco_green_zoho_migration.States.{RunState, RunState_Eq, run_transitions, allows}
use eco_green_zoho_migration.Money.Digits.{print_digits}
use eco_green_zoho_migration.Cutover.{
  EligibilityReason, rule_missing, live_start_unverified, before_migration_from, after_cutover,
  late_or_back_posted, in_window,
}
use eco_green_zoho_migration.Overlap.{SpEvidence, Decision, Reasoning, already_posted, or_else}
use eco_green_zoho_migration.Store.{
  Action, pure, gets, modify, throw_if, for_each, ◌>>=◌, ◌>>◌, Voucher, Disposition, Disposition_Eq,
  ExtractionRun, update_voucher, get_run, update_run, Json, null, values, key,
}
use eco_green_zoho_migration.Audit.{Context, entry, emit}
use eco_green_zoho_migration.Exceptions.{Condition, raise}
use eco_green_zoho_migration.Transform.Run.{actor_or_worker}
use eco_green_zoho_migration.Classification.{
  Verdict, inventory_only, outside_window, not_eligible, posted_already, ambiguous, unmapped_module,
  migrates, judge,
}

abbrev reason_text : EligibilityReason → Text
reason_text rule_missing = text "RULE_MISSING"
reason_text live_start_unverified = text "LIVE_START_UNVERIFIED"
reason_text before_migration_from = text "BEFORE_MIGRATION_FROM"
reason_text after_cutover = text "AFTER_CUTOVER"
reason_text late_or_back_posted = text "LATE_OR_BACK_POSTED"
reason_text in_window = text "IN_WINDOW"

abbrev category_of : EligibilityReason → Text
category_of late_or_back_posted = text "LATE_OR_BACK_POSTED"
category_of rule_missing = text "CUTOVER_RULE_MISSING"
category_of live_start_unverified = text "CUTOVER_RULE_MISSING"
category_of before_migration_from = text "CUTOVER_RULE_MISSING"
category_of after_cutover = text "CUTOVER_RULE_MISSING"
category_of in_window = text "CUTOVER_RULE_MISSING"

-- `stampDisposition`
unfoldable pub stamp :
    Context
    → (rule_version : Text) → Voucher
    → Disposition
    → (reason : Text) → Option Reasoning
    → Action (Unit {0})
stamp ctx rule_version v disposition reason evidence = update_voucher v.id λ r. record r {
  disposition = disposition;
  disposition_reason = some reason;
  disposition_rule_version = some rule_version;
  disposition_by = actor_or_worker ctx;
  disposition_at = some ctx.now;
  disposition_evidence = or_else_kept evidence r.disposition_evidence;
}
  where
    or_else_kept : Option Reasoning → Option Reasoning → Option Reasoning
    or_else_kept none old = old
    or_else_kept (some e) old = some e

unfoldable pub held : Voucher → (run_id category message : Text) → Json → Condition
held v run_id category message evidence = record {
  category = category;
  severity = text "P1";
  message = message;
  dedupe_key = text "cls:" ++ print_digits v.id ++ text ":" ++ category;
  branch_code = some v.branch_code;
  period = some v.period;
  run_id = some run_id;
  file_id = none;
  voucher_id = some v.id;
  batch_id = none;
  financial_impact = text "0.00";
  evidence = evidence;
}

abbrev shown : Text → Text
shown id = text "Voucher " ++ id

abbrev raised : Context → Condition → Action (Unit {0})
raised ctx c = raise ctx c >> pure tt

-- `uk(branch, date, type, payment method, tax bucket)`
abbrev population_key : Voucher → Text
population_key v =
    v.branch_code
    ++ text "|"
    ++ v.transaction_date
    ++ text "|"
    ++ v.source_transaction_type
    ++ text "|"
    ++ or_empty v.payment_method
    ++ text "|"
    ++ or_empty v.tax_bucket

-- The decision of the overlap gate is kept once for a voucher and a rule version.
unfoldable pub keep_candidate :
    Context → (rule_version : Text) → Voucher → Decision → Action (Unit {0})
keep_candidate ctx rule_version v d = modify λ s. record s {
  overlap_candidates =
      if exists (λ c. c.voucher_id == v.id && c.rule_version == rule_version) s.overlap_candidates
      then s.overlap_candidates
      else s.overlap_candidates
        ++ record {
          voucher_id = v.id;
          population_key = population_key v;
          classification = d.class;
          match_strength = d.strength;
          evidence = d.evidence;
          rule_version = rule_version;
          created_at = ctx.now;
        }
          ∷ [];
}

-- `evidence.sp_batch_ref || evidence.books_record_id`, in a template literal
abbrev posted_ref : Reasoning → Text
posted_ref e = elim e [
  | already_posted sp_batch_ref books_record_id books_module ↦
      (elim (or_else sp_batch_ref books_record_id) [ none ↦ text "null" | some r ↦ r ])
  | _ ↦ text "undefined"
]

module _ (json_of : Reasoning → Json) (ctx : Context) (run_id rule_version : Text)
    (v : Voucher) where
  -- What the loop writes for a verdict. `json_of` is the JSON value of the evidence.
  unfoldable pub carry_out : Verdict → Action (Unit {0})
  carry_out inventory_only = do
    stamp ctx rule_version v Disposition.other_excluded (text "INV_CONTROL_ONLY_v1") none
    emit ctx
        (record (entry (actor_or_worker ctx) "CLASSIFY.INVENTORY_ONLY" "voucher"
          (key (print_digits v.id))) {
            after = values (text "OTHER_EXCLUDED" ∷ text "INV_CONTROL_ONLY_v1" ∷ []);
            branch_code = some v.branch_code;
            period = some v.period;
          })
  carry_out (outside_window r) =
      stamp ctx rule_version v Disposition.other_excluded (reason_text r) none
  carry_out (not_eligible r) = do
    stamp ctx rule_version v Disposition.blocked (reason_text r) none
    raised ctx (
        held v run_id (category_of r)
          (shown (print_digits v.id) ++ text " blocked: " ++ reason_text r) null)
  carry_out (posted_already d) = do
    keep_candidate ctx rule_version v d
    stamp ctx rule_version v Disposition.smart_pharma_excluded
        (text "SMART_PHARMA_ALREADY_POSTED:" ++ posted_ref d.evidence) (some d.evidence)
  carry_out (ambiguous d) = do
    keep_candidate ctx rule_version v d
    stamp ctx rule_version v Disposition.blocked (text "PARTIAL_OR_AMBIGUOUS_OVERLAP")
        (some d.evidence)
    raised ctx (
        held v run_id (text "SMART_PHARMA_OVERLAP")
          (shown (print_digits v.id) ++ text " ambiguous Smart Pharma overlap")
          (json_of d.evidence))
  carry_out (unmapped_module d) = do
    keep_candidate ctx rule_version v d
    stamp ctx rule_version v Disposition.blocked (text "UNMAPPED_MODULE") none
    raised ctx (
        held v run_id (text "UNMAPPED_MODULE")
          (text "No approved MODULE_ROUTE for " ++ v.source_transaction_type) null)
  carry_out (migrates d) = do
    keep_candidate ctx rule_version v d
    stamp ctx rule_version v Disposition.migrate (text "IN_WINDOW") none

abbrev pub assert_classifiable : Option ExtractionRun → Action (Unit {0})
assert_classifiable none = pure tt
assert_classifiable (some run) =
    throw_if (not (allows run_transitions run.status RunState.classified))
      (illegal_transition (run_move run.status RunState.classified))

abbrev branch_of : Option ExtractionRun → Option Text
branch_of none = none
branch_of (some run) = some run.branch_code

-- What follows the loop.
unfoldable pub end_classification :
    Context → (run_id : Text) → Option ExtractionRun → Action (Unit {0})
end_classification ctx run_id run = do
  assert_classifiable run
  update_run run_id (λ r. record r { status = RunState.classified; updated_at = ctx.now })
  emit ctx (record (entry (actor_or_worker ctx) "CLASSIFY.RUN" "extraction_run" (key run_id)) {
    after = values (text "CLASSIFIED" ∷ []);
    branch_code = branch_of run;
  })

-- A voucher that staging has blocked is left as it is.
unfoldable pub classify_run :
    (Reasoning → Json)
    → Context
    → (run_id rule_version : Text) → List SpEvidence
    → Action (Unit {0})
classify_run json_of ctx run_id rule_version evidence = do
  matrix ← gets λ s. filter (λ r. r.approval_status == text "APPROVED") s.cutover_matrix
  routes ← gets λ s.
      filter (λ r. r.rule_type == text "MODULE_ROUTE" && r.status == text "APPROVED")
        s.mapping_rules
  vouchers ← gets λ s. filter (λ v. v.extraction_run_id == run_id) s.vouchers
  run ← get_run run_id
  for_each (filter (λ v. v.disposition == Disposition.pending) vouchers) λ v.
      carry_out json_of ctx run_id rule_version v
        (judge (record { matrix = matrix; routes = routes; sp_evidence = evidence }) v)
  end_classification ctx run_id run
