-- ===== src/Store/Rows.antt =====
-- The rows of the tables (src/adapters/store/schema.sql) that the modelled code reads and writes,
-- with the columns that it reads or writes.
use eco_green_zoho_migration.Base.{ℕ, Text, Option, Bool, true, List, nat_eq, Eq, arith, ◌≡◌, ◌↔◌}
use eco_green_zoho_migration.Overlap.{OverlapClass, Strength, Reasoning}
use eco_green_zoho_migration.States.{RunState, BatchState, QueueState}
use eco_green_zoho_migration.Errors.{AssignmentState, Role}

-- `DISPOSITIONS` of states.js
pub data Disposition : Type 0 where
  pending migrate smart_pharma_excluded other_excluded blocked : Disposition

abbrev disposition_index : Disposition → ℕ
disposition_index pending = 0
disposition_index migrate = 1
disposition_index smart_pharma_excluded = 2
disposition_index other_excluded = 3
disposition_index blocked = 4

pub disposition_eq_iff :
    (a b : Disposition) → (nat_eq (disposition_index a) (disposition_index b) ≡ true) ↔ (a ≡ b)
disposition_eq_iff a b = ground arith

instance abbrev pub Disposition_Eq : Eq Disposition
Disposition_Eq = record {
  same = λ a b. nat_eq (disposition_index a) (disposition_index b);
  same_iff = disposition_eq_iff;
}

pub data MigrationStatus : Type 0 where
  not_queued queued in_flight posted failed unknown_outcome dead_letter skipped : MigrationStatus

-- A JSON value: an array or an object keeps each part by its serialised text.
pub data Json : Type 0 where
  null : Json
  scalar : Text → Json
  array : List Text → Json
  object : List (Text × Text) → Json

pub record Voucher : Type 0 where
  pub id : ℕ
  pub extraction_run_id : Text
  pub source_record_id : Text
  pub source_document_no : Option Text
  pub branch_code : Text
  pub zoho_location_id : Option Text
  pub period : Text
  pub transaction_date : Text
  pub source_transaction_type : Text
  pub source_transaction_hash : Text
  pub debit_total : Text
  pub credit_total : Text
  pub line_count : ℕ
  pub payment_method : Option Text
  pub tax_bucket : Option Text
  pub party_code : Option Text
  pub disposition : Disposition
  pub disposition_reason : Option Text
  pub disposition_rule_version : Option Text
  pub disposition_evidence : Option Reasoning  -- disposition_evidence_json
  pub disposition_by : Option Text
  pub disposition_at : Option Text
  pub mapping_version : Option Text
  pub transformation_version : Option Text
  pub target_module : Option Text
  pub target_payload_hash : Option Text
  pub migration_batch_id : Option Text
  pub approval_id : Option Text
  pub zoho_record_id : Option Text
  pub migration_status : MigrationStatus
  pub attempt_count : ℕ
  pub last_error_code : Option Text
  pub updated_at : Text

-- A row of source_txn_lines: one line of a voucher, as it was delivered.
pub record SourceLine : Type 0 where
  pub run_id : Text
  pub voucher_id : Text
  pub line_no : ℕ
  pub ledger_code : Text
  pub voucher_type : Text
  pub debit : Text
  pub credit : Text
  pub tax_bucket : Option Text
  pub reference_no : Option Text
  pub narration : Option Text

-- A row of extraction_runs.
pub record ExtractionRun : Type 0 where
  pub id : Text
  pub branch_code : Text
  pub from_date : Text
  pub to_date : Text
  pub status : RunState
  pub updated_at : Text

-- A row of summaries; its `uk` is run_id|ledger_code|voucher_type|summary_version.
pub record StoredSummary : Type 0 where
  pub run_id : Text
  pub branch_code : Text
  pub from_date : Text
  pub to_date : Text
  pub ledger_code : Text
  pub voucher_type : Text
  pub debit : Text
  pub credit : Text
  pub txn_count : ℕ
  pub line_count : ℕ
  pub summary_version : Text
  pub created_at : Text

-- A row of overlap_candidates; its `uk` is voucher_id|rule_version.
pub record OverlapCandidate : Type 0 where
  pub voucher_id : ℕ
  pub population_key : Text
  pub classification : OverlapClass
  pub match_strength : Strength
  pub evidence : Reasoning
  pub rule_version : Text
  pub created_at : Text

pub record Batch : Type 0 where
  pub id : Text
  pub branch_code : Text
  pub period : Text
  pub run_id : Text
  pub scope_hash : Text
  pub mapping_version : Text
  pub transformation_version : Text
  pub cutover_rule_version : Text
  pub voucher_count : ℕ
  pub debit_total : Text
  pub credit_total : Text
  pub totals_reason : Option Text  -- `reason` of totals_json
  pub status : BatchState
  pub approval_id : Option Text
  pub created_by : Text
  pub created_at : Text
  pub updated_at : Text

pub record Approval : Type 0 where
  pub id : Text
  pub batch_id : Text
  pub scope_hash : Text
  pub approver : Text
  pub approver_role : Option Role
  pub reason : Option Text
  pub invalidated_at : Option Text
  pub invalidation_reason : Option Text
  pub created_at : Text

pub record QueueItem : Type 0 where
  pub id : ℕ
  pub batch_id : Text
  pub voucher_id : ℕ
  pub idempotency_key : Text
  pub status : QueueState
  pub claimed_by : Option Text
  pub claimed_at : Option Text
  pub claim_expires_at : Option Text
  pub run_after : Option Text
  pub attempts : ℕ
  pub last_error_code : Option Text
  pub created_at : Text
  pub updated_at : Text

pub data ResponseClass : Type 0 where
  success rate_limit retryable auth non_retryable unknown : ResponseClass

-- `uk` is `queue_item_id|attempt_no`: the pair itself stands for it.
pub record ApiAttempt : Type 0 where
  pub id : ℕ
  pub queue_item_id : ℕ
  pub attempt_no : ℕ
  pub target_module : Text
  pub request_hash : Text
  pub response_class : ResponseClass
  pub zoho_record_id : Option Text
  pub error_code : Option Text
  pub retry_after_ms : Option ℕ
  pub started_at : Text
  pub finished_at : Option Text

pub record PreviewPayload : Type 0 where
  pub voucher_id : ℕ
  pub target_module : Text
  pub payload_json : Text
  pub payload_hash : Text
  pub mapping_version : Text
  pub transformation_version : Text
  pub warnings : List Text
  pub created_at : Text

pub data Layer : Type 0 where
  layer_a layer_b layer_c balance_bridge : Layer

pub data ReconStatus : Type 0 where
  pass fail pass_with_approved_exceptions : ReconStatus

pub record ReconRun : Type 0 where
  pub id : Text
  pub run_id : Option Text
  pub layer : Layer
  pub status : ReconStatus
  pub created_at : Text

pub data Priority : Type 0 where
  low normal high urgent : Priority

pub record Assignment : Type 0 where
  pub id : ℕ
  pub branch_code : Text
  pub period : Text
  pub transaction_class : Text
  pub assigned_operator : Option Text
  pub assigned_approver : Option Text
  pub status : AssignmentState
  pub priority_level : Priority
  pub assigned_at : Option Text
  pub due_at : Option Text
  pub version : ℕ
  pub assigned_by : Option Text
  pub reassignment_reason : Option Text
  pub created_at : Text
  pub updated_at : Text

pub data ExceptionState : Type 0 where
  open_ assigned resolved approved_exception rejected : ExceptionState

pub record ExceptionRow : Type 0 where
  pub id : ℕ
  pub category : Text
  pub severity : Text
  pub branch_code : Option Text
  pub period : Option Text
  pub run_id : Option Text
  pub file_id : Option ℕ
  pub voucher_id : Option ℕ
  pub batch_id : Option Text
  pub financial_impact : Text
  pub owner : Option Text
  pub status : ExceptionState
  pub root_cause : Option Text
  pub disposition : Option Text
  pub evidence : Json  -- evidence_json, parsed; `null` where the column is null
  pub message : Text
  pub dedupe_key : Text
  pub created_at : Text
  pub updated_at : Text

-- What an audit event keeps of a row before or after a change (before_json, after_json).
pub data Snapshot : Type 0 where
  nothing : Snapshot
  assignment_row : Assignment → Snapshot
  exception_row : ExceptionRow → Snapshot
  batch_status : BatchState → List Text → Snapshot
  queue_status : QueueState → Snapshot
  run_status : RunState → Snapshot
  scope : Text → Snapshot
  counts : BatchState → ℕ → ℕ → Snapshot
  values : List Text → Snapshot

pub data EntityId : Type 0 where
  row_id : ℕ → EntityId
  key : Text → EntityId

pub record AuditEvent : Type 0 where
  pub id : ℕ
  pub actor : Text
  pub actor_role : Option Role
  pub action : Text
  pub entity_type : Text
  pub entity_id : Option EntityId
  pub before : Snapshot
  pub after : Snapshot
  pub reason : Option Text
  pub allowed : Bool  -- authorization_decision is ALLOWED
  pub correlation_id : Text
  pub branch_code : Option Text
  pub period : Option Text
  pub batch_id : Option Text
  pub created_at : Text
