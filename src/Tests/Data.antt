-- ===== src/Tests/Data.antt =====
-- Rows that the tests share.
use eco_green_zoho_migration.Base.{Text, text, ◌++◌, none, some, List, [], ◌∷◌}
use eco_green_zoho_migration.Errors.{Role, AssignmentState}
use eco_green_zoho_migration.States.{BatchState, QueueState}
use eco_green_zoho_migration.Store.{
  Store, Table, Voucher, Batch, QueueItem, PreviewPayload, Assignment, Disposition, MigrationStatus,
  normal,
}
use eco_green_zoho_migration.Audit.{Context}
use eco_green_zoho_migration.Batch.Scope.{ScopeKey, Identity}

abbrev pub no_rows : {R : Type 0} → Table R
no_rows = record { rows = []; last = 0 }

abbrev pub empty_store : Store
empty_store = record {
  requests = [];
  cutover_matrix = [];
  overlap_candidates = [];
  mapping_rules = [];
  extraction_runs = [];
  source_txn_lines = [];
  summaries = [];
  vouchers = [];
  migration_batches = [];
  approvals = [];
  queue_items = no_rows;
  api_attempts = no_rows;
  preview_payloads = [];
  recon_runs = [];
  assignments = no_rows;
  exceptions = no_rows;
  audit_events = no_rows;
}

abbrev pub ctx_of : Role → Text → Context
ctx_of role who = record {
  correlation_id = some (text "c1");
  actor = some who;
  actor_role = some role;
  now = text "2024-05-02";
}

abbrev pub voucher : Voucher
voucher = record {
  id = 1;
  extraction_run_id = text "r1";
  source_record_id = text "v1";
  source_document_no = none;
  branch_code = text "BR";
  zoho_location_id = some (text "L1");
  period = text "2024-04";
  transaction_date = text "2024-04-03";
  source_transaction_type = text "SALE";
  source_transaction_hash = text "h1";
  debit_total = text "12.50";
  credit_total = text "12.50";
  line_count = 2;
  payment_method = none;
  tax_bucket = none;
  party_code = some (text "P1");
  disposition = Disposition.migrate;
  disposition_reason = none;
  disposition_rule_version = some (text "k1");
  disposition_evidence = none;
  disposition_by = none;
  disposition_at = none;
  mapping_version = some (text "m1");
  transformation_version = some (text "t1");
  target_module = some (text "journals");
  target_payload_hash = some (text "p1");
  migration_batch_id = none;
  approval_id = none;
  zoho_record_id = none;
  migration_status = MigrationStatus.not_queued;
  attempt_count = 0;
  last_error_code = none;
  updated_at = text "2024-05-01";
}

abbrev ids : List Identity → Text
ids [] = []
ids (i ∷ is) = i.id ++ i.payload_hash ++ ids is

-- A digest that tells the scopes of the tests apart.
abbrev pub digest : ScopeKey → Text
digest k = ids k.identities

abbrev pub batch_in : BatchState → Batch
batch_in st = record {
  id = text "b1";
  branch_code = text "BR";
  period = text "2024-04";
  run_id = text "r1";
  scope_hash = text "h1p1";
  mapping_version = text "m1";
  transformation_version = text "t1";
  cutover_rule_version = text "k1";
  voucher_count = 1;
  debit_total = text "12.50";
  credit_total = text "12.50";
  totals_reason = none;
  status = st;
  approval_id = none;
  created_by = text "op";
  created_at = text "2024-05-01";
  updated_at = text "2024-05-01";
}

abbrev pub item_in : QueueState → QueueItem
item_in st = record {
  id = 1;
  batch_id = text "b1";
  voucher_id = 1;
  idempotency_key = text "h1";
  status = st;
  claimed_by = none;
  claimed_at = none;
  claim_expires_at = none;
  run_after = none;
  attempts = 0;
  last_error_code = none;
  created_at = text "2024-05-01";
  updated_at = text "2024-05-01";
}

abbrev pub payload : PreviewPayload
payload = record {
  voucher_id = 1;
  target_module = text "journals";
  payload_json = text "{}";
  payload_hash = text "p1";
  mapping_version = text "m1";
  transformation_version = text "t1";
  warnings = [];
  created_at = text "2024-05-01";
}

abbrev pub assignment_in : AssignmentState → Assignment
assignment_in st = record {
  id = 1;
  branch_code = text "BR";
  period = text "2024-04";
  transaction_class = text "ALL";
  assigned_operator = some (text "op");
  assigned_approver = some (text "app");
  status = st;
  priority_level = normal;
  assigned_at = some (text "2024-05-01");
  due_at = none;
  version = 3;
  assigned_by = none;
  reassignment_reason = none;
  created_at = text "2024-05-01";
  updated_at = text "2024-05-01";
}

abbrev pub store_of : BatchState → Store
store_of st = record empty_store {
  vouchers = voucher ∷ [];
  migration_batches = batch_in st ∷ [];
  preview_payloads = payload ∷ [];
}

abbrev pub store_with : AssignmentState → Store
store_with st = record empty_store {
  assignments = record { rows = assignment_in st ∷ []; last = 1 };
}
