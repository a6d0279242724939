-- ===== src/Errors.antt =====
-- The errors that the modelled code throws, each with the fields that its class keeps, and the
-- outcome of a call. Messages are left out: no caller reads them.
use eco_green_zoho_migration.Base.{ℕ, Text, Option, Bool, true, false}
use eco_green_zoho_migration.States.{RunState, BatchState, QueueState}
use eco_green_zoho_migration.Money.{MoneyError}

-- src/core/assignments.js, `ASSIGNMENT_STATES`
pub data AssignmentState : Type 0 where
  unassigned assigned in_progress ready_for_approval approved on_hold done : AssignmentState

-- The role that a principal acts in; the code compares it with these three names.
pub data Role : Type 0 where
  operator approver admin : Role
  other_role : Text → Role

-- `kind`, `from` and `to` of an IllegalTransitionError.
pub data Move : Type 0 where
  run_move : RunState → RunState → Move
  batch_move : BatchState → BatchState → Move
  queue_item_move : QueueState → QueueState → Move
  assignment_move : AssignmentState → AssignmentState → Move

-- `reason` of a PostingDisabledError.
pub data BlockedReason : Type 0 where
  driver_not_live posting_enabled_false no_authorization_ref allowlist_empty : BlockedReason
  org_not_allowlisted best_effort_claims reads_blocked : BlockedReason

pub data Error : Type 0 where
  illegal_transition : Move → Error
  batch_not_found : Text → Error
  forbidden_role : Option Role → Error
  sod_violation : Option Text → Error
  scope_changed : Text → Error
  validation : Error
  user_not_found : Option Text → Error
  assignment_not_found : ℕ → Error
  version_conflict : ℕ → Error
  missing_correlation_id type_error : Error
  unique_violation : Error
  invalid_category invalid_resolve_status : Text → Error
  exception_not_found : ℕ → Error
  money_error : MoneyError → Error
  posting_disabled : BlockedReason → Error
  gl_effects_unbalanced gl_effects_unknown_module : Error
  ambiguous_mapping : ℕ → Error
  unmapped_entity : (rule_type : Text) → (source_key : Option Text) → Error
  invalid_target_type : Error
  csv_parse : (line : ℕ) → Error
  payload_not_found : Error
  run_not_found : Text → Error

pub data Result {ℓ} (A : Type ℓ) : Type ℓ where
  ok : A → Result A
  err : Error → Result A

abbrev pub is_ok {ℓ} : {A : Type ℓ} → Result A → Bool
is_ok (ok a) = true
is_ok (err e) = false
