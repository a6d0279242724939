-- ===== src/Cutover.antt =====
-- src/core/cutover.js: which cutover rule applies to a voucher, and whether the voucher falls into the
-- window that the rule approves for migration.
pub mod Specific
pub mod Eligible
use eco_green_zoho_migration.Base.{
  Text, text, Bool, true, false, not, ◌&&◌, ◌||◌, Option, none, some, List, [], ◌∷◌, find, filter,
  if◌then◌else◌, truthy, or_empty, text_lt, text_ge, ◌==◌, text_Eq, option_text_Eq, take,
}

-- A row of cutover_matrix, with the columns that the decision reads.
pub record CutoverRule : Type 0 where
  pub branch_code : Text
  pub transaction_class : Text
  pub payment_method : Text
  pub approval_status : Text
  pub migration_from_date : Option Text
  pub live_system_start_date : Option Text
  pub historical_migration_end_date : Option Text
  pub smart_pharma_coverage_status : Option Text

-- What `resolveCutover` is asked for.
pub record Wanted : Type 0 where
  pub branch_code : Text
  pub voucher_type : Text
  pub payment_method : Option Text

abbrev pub is_approved_for : Wanted → CutoverRule → Bool
is_approved_for w r = r.approval_status == text "APPROVED" && r.branch_code == w.branch_code

abbrev pub is_exact : Wanted → CutoverRule → Bool
is_exact w r = r.transaction_class == w.voucher_type && some r.payment_method == w.payment_method

abbrev pub is_any_payment : Wanted → CutoverRule → Bool
is_any_payment w r = r.transaction_class == w.voucher_type && r.payment_method == text "*"

abbrev pub is_any : CutoverRule → Bool
is_any r = r.transaction_class == text "*" && r.payment_method == text "*"

abbrev pub first_of {ℓ} : {A : Type ℓ} → Option A → Option A → Option A
first_of none b = b
first_of (some a) b = some a

unfoldable pub resolve_cutover : List CutoverRule → Wanted → Option CutoverRule
resolve_cutover rows w =
    let approved = filter (is_approved_for w) rows in
    first_of (find (is_exact w) approved)
      (first_of (find (is_any_payment w) approved) (find is_any approved))

pub data EligibilityReason : Type 0 where
  rule_missing live_start_unverified before_migration_from after_cutover : EligibilityReason
  late_or_back_posted in_window : EligibilityReason

pub record Eligibility : Type 0 where
  pub eligible : Bool
  pub reason : EligibilityReason

-- The dates of a voucher; `modified` is `source_modified_at ?? modified_at`.
pub record Dates : Type 0 where
  pub transaction_date : Text
  pub modified : Option Text

-- `s.length >= 10 ? s.slice(0, 10) : s`, the date of a timestamp
abbrev pub date_part : Text → Text
date_part s = take 10 s

abbrev pub refuse : EligibilityReason → Eligibility
refuse r = record { eligible = false; reason = r }

-- `coverage === 'UNKNOWN' || coverage == null`
abbrev pub is_unknown_coverage : Option Text → Bool
is_unknown_coverage none = true
is_unknown_coverage (some c) = c == text "UNKNOWN"

unfoldable pub is_before_from : CutoverRule → Dates → Bool
is_before_from r d =
    truthy r.migration_from_date && text_lt d.transaction_date (or_empty r.migration_from_date)

unfoldable pub is_after_cutover : CutoverRule → Dates → Bool
is_after_cutover r d =
    text_ge d.transaction_date (or_empty r.live_system_start_date)
    || (truthy r.historical_migration_end_date
        && text_lt (or_empty r.historical_migration_end_date) d.transaction_date)

abbrev pub is_modified_since : Option Text → Text → Bool
is_modified_since none start = false
is_modified_since (some m) start = truthy (some (date_part m)) && text_ge (date_part m) start

unfoldable pub evaluate_rule : CutoverRule → Dates → Eligibility
unfolding is_before_from is_after_cutover
evaluate_rule r d =
    if not (truthy r.live_system_start_date) || is_unknown_coverage r.smart_pharma_coverage_status
    then refuse live_start_unverified
    else if is_before_from r d
    then refuse before_migration_from
    else if is_after_cutover r d
    then refuse after_cutover
    else if is_modified_since d.modified (or_empty r.live_system_start_date)
    then refuse late_or_back_posted
    else record { eligible = true; reason = in_window }

unfoldable pub evaluate_eligibility : Option CutoverRule → Dates → Eligibility
evaluate_eligibility none d = refuse rule_missing
evaluate_eligibility (some r) d = evaluate_rule r d
