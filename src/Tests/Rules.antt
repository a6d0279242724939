-- ===== src/Tests/Rules.antt =====
-- Cutover rules, overlap evidence, money and the client's guard.
use eco_green_zoho_migration.Base.{
  text, text_lt, ◌≡◌, ◌↔◌, ◌⊎◌, inl, ◌≤◌, ◌<◌, ℕ, refl, none, some, List, [], ◌∷◌, true, false,
  truthy, or_empty, negsuc, leb, if◌then◌else◌, arith,
}
use eco_green_zoho_migration.Errors.{ok}
use eco_green_zoho_migration.Store.{success, rate_limit}
use eco_green_zoho_migration.Money.{amount, parse_money, format_money}
use eco_green_zoho_migration.Money.RoundTrip.{parse_money-format_money}
use eco_green_zoho_migration.Mapping.{MappingRule, Asked}
use eco_green_zoho_migration.Cutover.{
  CutoverRule, Wanted, Dates, resolve_cutover, evaluate_eligibility, is_unknown_coverage,
  is_modified_since,
}
use eco_green_zoho_migration.Cutover.Specific.{IsRight, resolves_most_specific}
use eco_green_zoho_migration.Cutover.Eligible.{eligible_iff}
use eco_green_zoho_migration.Overlap.{
  SpEvidence, OverlapView, classify_overlap, smart_pharma_already_posted, not_applicable,
}
use eco_green_zoho_migration.Overlap.Postings.{HasOnePosting}
use eco_green_zoho_migration.Overlap.Sound.{excluded_iff}
use eco_green_zoho_migration.Books.Guard.{
  BooksConfig, assert_posting_allowed, posting_blocked_reasons, is_posting_enabled, best_effort,
  not_given, allowed_iff_no_reasons,
}
use eco_green_zoho_migration.Books.Classify.{
  Attempt, classify_response, classify_status, IsTransient, retry_is_safe, success_iff,
}
use eco_green_zoho_migration.Books.Retry.{
  Options, Outcome, Run, IsRun, IsDraw, with_retry, retry_ends,
}
use eco_green_zoho_migration.Books.Window.{
  Limits, granted_in, run_passes, unused, limit_is_kept, take_pass, evict, granted,
  one_wait_is_enough,
}

abbrev rule : CutoverRule
rule = record {
  branch_code = text "BR";
  transaction_class = text "*";
  payment_method = text "*";
  approval_status = text "APPROVED";
  migration_from_date = none;
  live_system_start_date = some (text "2024-06-01");
  historical_migration_end_date = none;
  smart_pharma_coverage_status = some (text "COVERED");
}

abbrev wanted : Wanted
wanted = record { branch_code = text "BR"; voucher_type = text "SALE"; payment_method = none }

resolves_most_specific_example :
    IsRight
      (rule ∷ record rule { transaction_class = text "SALE" } ∷ [])
      wanted
      (resolve_cutover (rule ∷ record rule { transaction_class = text "SALE" } ∷ []) wanted)
resolves_most_specific_example =
    resolves_most_specific (rule ∷ record rule { transaction_class = text "SALE" } ∷ []) wanted

abbrev dates : Dates
dates = record { transaction_date = text "2024-04-03"; modified = none }

eligible_iff_example : ((evaluate_eligibility (some rule) dates).eligible ≡ true) ↔ (
    (r : CutoverRule) × (some rule ≡ some r)
    × (truthy r.live_system_start_date ≡ true)
    × (is_unknown_coverage r.smart_pharma_coverage_status ≡ false)
    × ((truthy r.migration_from_date ≡ false)
        ⊎ (text_lt dates.transaction_date (or_empty r.migration_from_date) ≡ false))
    × (text_lt dates.transaction_date (or_empty r.live_system_start_date) ≡ true)
    × ((truthy r.historical_migration_end_date ≡ false)
        ⊎ (text_lt (or_empty r.historical_migration_end_date) dates.transaction_date ≡ false))
    × (is_modified_since dates.modified (or_empty r.live_system_start_date) ≡ false))
eligible_iff_example = eligible_iff (some rule) dates

abbrev view : OverlapView
view = record {
  branch_code = text "BR";
  transaction_date = text "2024-04-03";
  voucher_type = text "SALE";
  payment_method = none;
  tax_bucket = none;
  amount = text "12.50";
  reference_no = none;
}

abbrev evidence : SpEvidence
evidence = record {
  branch_code = text "BR";
  business_date = text "2024-04-03";
  transaction_class = text "SALE";
  payment_method = none;
  tax_bucket = none;
  amount = text "12.5";
  sp_batch_ref = some (text "SP1");
  books_record_id = none;
  books_module = none;
}

excluded_iff_example :
    (((classify_overlap (some (text "COVERED")) view (evidence ∷ [])).class
        ≡ smart_pharma_already_posted)
      ↔ (((some (text "COVERED") ≡ some (text "COVERED"))
            ⊎ (some (text "COVERED") ≡ some (text "PARTIAL")))
          × HasOnePosting view (evidence ∷ [])))
    × (((classify_overlap (some (text "COVERED")) view (evidence ∷ [])).class ≡ not_applicable)
        ↔ (some (text "COVERED") ≡ some (text "NOT_COVERED")))
excluded_iff_example = excluded_iff (some (text "COVERED")) view (evidence ∷ [])

parse_money-format_money_example :
    parse_money (some (format_money (negsuc 1204))) ≡ amount (negsuc 1204)
parse_money-format_money_example = parse_money-format_money (negsuc 1204)

abbrev config : BooksConfig
config = record {
  driver = text "live";
  posting_enabled = true;
  posting_authorization_ref = some (text "ref");
  org_allowlist = some (text "o1" ∷ []);
  organization_id = some (text "o1");
}

allowed_iff_no_reasons_example :
    ((assert_posting_allowed (some config) best_effort ≡ ok tt)
      ↔ (posting_blocked_reasons (some config) best_effort ≡ []))
    × ((assert_posting_allowed (some config) not_given ≡ ok tt)
        ↔ (is_posting_enabled (some config) ≡ true))
allowed_iff_no_reasons_example = allowed_iff_no_reasons (some config) best_effort

abbrev attempt : ℕ → Attempt
attempt status = record {
  status = some status;
  error = none;
  timed_out_after_send = false;
  retry_after_header = none;
  body_parse_error = false;
}

retry_is_safe_example :
    ((attempt 503).timed_out_after_send ≡ false)
    × (((attempt 503).status ≡ none) ⊎ ((s : ℕ) × ((attempt 503).status ≡ some s) × IsTransient s))
unfolding classify_response classify_status
retry_is_safe_example = retry_is_safe (λ h. none) (attempt 503) (inl refl)

success_iff_example : ((classify_response (λ h. none) (attempt 201)).class ≡ success) ↔ (
    ((attempt 201).timed_out_after_send ≡ false)
    × ((attempt 201).body_parse_error ≡ false)
    × ((s : ℕ) × ((attempt 201).status ≡ some s) × (200 ≤ s) × (s < 300)))
success_iff_example = success_iff (λ h. none) (attempt 201)

abbrev options : Options
options = record { max_attempts = 3; base_ms = 500; max_ms = 30000; honour_retry_after = true }

-- Two refusals by a rate limit, then a success.
abbrev outcome_at : ℕ → Outcome ℕ
outcome_at n = record {
  class = some (if leb 3 n then success else rate_limit);
  retry_after_ms = if leb 3 n then none else some 40;
  value = n;
}

zero-IsDraw : IsDraw (λ n cap. 0)
zero-IsDraw n cap = omega arith

retry_ends_example :
    (r : Run ℕ) × (with_retry (λ n cap. 0) options outcome_at ≡ some r)
    × IsRun options outcome_at 0 r
retry_ends_example = retry_ends (λ n cap. 0) options outcome_at zero-IsDraw

abbrev limits : Limits
limits = record { limit = 1; window_ms = 10 }

limit_is_kept_example : granted_in limits 4 (run_passes limits (4 ∷ 9 ∷ 14 ∷ []) unused).grants ≤ 1
limit_is_kept_example =
    limit_is_kept limits (4 ∷ 9 ∷ 14 ∷ []) 4 (omega arith, (omega arith, (omega arith, tt)))

one_wait_is_enough_example : (us : List ℕ) × (take_pass limits 15 (4 ∷ []) ≡ granted us)
unfolding take_pass evict
one_wait_is_enough_example =
    one_wait_is_enough limits 9 15 6 (4 ∷ []) (4 ∷ []) (omega arith) (omega arith) refl
      (omega arith)

abbrev mapping_rule : MappingRule
mapping_rule = record {
  rule_type = text "MODULE_ROUTE";
  source_key = text "SALE";
  status = text "APPROVED";
  effective_from = some (text "2024-04-01");
  effective_to = none;
  target_value = text "journals";
  mapping_version = text "map_v1";
  notes = none;
}

abbrev asked : Asked
asked = record {
  rule_type = text "MODULE_ROUTE";
  source_key = text "SALE";
  on_date = text "2024-04-03";
}
