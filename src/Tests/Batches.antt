-- ===== src/Tests/Batches.antt =====
-- Batches, their approval and their queue.
use eco_green_zoho_migration.Base.{
  text, text_eq, text_lt, trim, ◌+ℤ◌, ◌≡◌, ◌↔◌, every, ◌≢◌, refl, none, some, [], ◌∷◌, ◌+◌, All,
  true, false, ◌==◌,
}
use eco_green_zoho_migration.Errors.{
  approver, operator, ok, posting_disabled, posting_enabled_false,
}
use eco_green_zoho_migration.Money.{parse_money, format_money, print_unsigned}
use eco_green_zoho_migration.Money.Digits.{print_digits, digits_value}
use eco_green_zoho_migration.States.{BatchState, QueueState, QueueState_Eq, batch_transitions}
use eco_green_zoho_migration.Store.{Store, Batch, calls, QueueItem, claim, claimed_row, success}
use eco_green_zoho_migration.Audit.{emit}
use eco_green_zoho_migration.Books.Guard.{BooksConfig, assert_posting_allowed, is_live, is_enabled}
use eco_green_zoho_migration.Batch.Scope.{Scope, compute_scope, sum_money, is_in_scope, scope_hash}
use eco_green_zoho_migration.Batch.Approving.{
  Signing, approve_batch, approve_found, approve_scope, refuse_scope, sign, insert_approval,
}
use eco_green_zoho_migration.Batch.Approved.{IsApproval, approve_batch-IsApproval}
use eco_green_zoho_migration.Batch.Enqueuing.{Counts, enqueue_batch}
use eco_green_zoho_migration.Batch.Queued.{
  IsQueue, has_item, enqueued_once, enqueue_checks_no_scope,
}
use eco_green_zoho_migration.Executor.Client.{Client, Answer}
use eco_green_zoho_migration.Executor.Outcome.{Work}
use eco_green_zoho_migration.Executor.Processing.{process_item}
use eco_green_zoho_migration.Executor.Claims.{claim_is_exclusive}
use eco_green_zoho_migration.Executor.Posting.{refused_never_creates, migrated_iff}
use eco_green_zoho_migration.Executor.Slice.{target_status}
use eco_green_zoho_migration.Tests.Data.{ctx_of, digest, batch_in, item_in, store_of, voucher}

abbrev signing : Signing
signing = record {
  batch_id = text "b1";
  approver = text "app";
  approver_role = some approver;
  reason = none;
  sod = none;
  new_id = text "a1";
}

abbrev signed : Batch
signed = record (batch_in BatchState.approved) {
  approval_id = some (text "a1");
  updated_at = text "2024-05-02";
}

approve_batch-IsApproval_example :
    (b : Batch) × IsApproval digest
      (ctx_of approver (text "app"))
      signing
      b
      (store_of BatchState.ready_for_approval)
unfolding approve_batch approve_found approve_scope compute_scope sum_money is_in_scope scope_hash
    refuse_scope sign insert_approval emit batch_transitions parse_money calls text_eq trim
approve_batch-IsApproval_example =
    approve_batch-IsApproval digest (ctx_of approver (text "app")) signing
      (store_of BatchState.ready_for_approval)
      (approve_batch digest (ctx_of approver (text "app")) signing
        (store_of BatchState.ready_for_approval)).1
      signed refl

abbrev the_scope : Scope
the_scope = record {
  vouchers = voucher ∷ [];
  mapping_version = some (text "m1");
  transformation_version = some (text "t1");
  cutover_rule_version = some (text "k1");
  hash = text "h1p1";
  voucher_count = 1;
  debit_total = text "12.50";
  credit_total = text "12.50";
}

enqueued_once_example :
    (r : Batch) × (m : Counts) × (t : Store) × (enqueue_batch digest
        (ctx_of operator (text "op"))
        (text "b1")
        (store_of BatchState.approved)
      ≡ (ok (r, m), t))
    × (m.enqueued + m.skipped_existing ≡ 1)
    × All (λ v. has_item v.source_transaction_hash t.queue_items.rows ≡ true) (voucher ∷ [])
    × IsQueue t.queue_items.rows
unfolding compute_scope sum_money is_in_scope scope_hash parse_money format_money print_unsigned
    print_digits calls text_eq trim ◌+ℤ◌ digits_value
enqueued_once_example =
    enqueued_once (ctx_of operator (text "op")) (text "b1") digest (store_of BatchState.approved)
      (batch_in BatchState.approved) the_scope refl refl refl refl refl tt

enqueue_checks_no_scope_example :
    enqueue_batch digest (ctx_of operator (text "op")) (text "b1") (store_of BatchState.approved)
    ≡ enqueue_batch
        (λ k. text "other")
        (ctx_of operator (text "op"))
        (text "b1")
        (store_of BatchState.approved)
enqueue_checks_no_scope_example =
    enqueue_checks_no_scope (ctx_of operator (text "op")) (text "b1") digest (λ k. text "other")
      (store_of BatchState.approved)

abbrev queued_store : Store
queued_store = record (store_of BatchState.migrating) {
  queue_items = record { rows = item_in QueueState.queued ∷ []; last = 1 };
}

abbrev claimed_store : Store
claimed_store = record (store_of BatchState.migrating) {
  queue_items = record {
    rows =
        claimed_row (text "w1") (text "2024-05-02") (text "2024-05-03") (item_in QueueState.queued)
        ∷ [];
    last = 1;
  };
}

claim_is_exclusive_example :
    (claim (text "w2") (text "2024-05-02") (text "2024-05-04") QueueState.claimed 1 claimed_store).0
    ≡ ok none
unfolding claim calls text_lt text_eq
claim_is_exclusive_example =
    claim_is_exclusive 1 (text "w1") (text "w2") (text "2024-05-02") (text "2024-05-02")
      (text "2024-05-03") QueueState.queued QueueState.claimed queued_store claimed_store
      (claimed_row (text "w1") (text "2024-05-02") (text "2024-05-03") (item_in QueueState.queued))
      (tt, tt) refl refl (text "2024-05-04")

abbrev shut_config : BooksConfig
shut_config = record {
  driver = text "live";
  posting_enabled = false;
  posting_authorization_ref = some (text "ref");
  org_allowlist = some (text "o1" ∷ []);
  organization_id = some (text "o1");
}

abbrev answer : Answer
answer = record {
  class = success;
  reason = none;
  retry_after_ms = none;
  record_id = some (text "z1");
  message = none;
}

abbrev client : Client
client = record {
  json_error = λ t. none;
  driver = text "live";
  config = shut_config;
  max_attempts = 5;
  create = λ m p k. answer;
  search_by_migration_tag = λ m h. [];
  later = λ t ms. t;
  draw = λ n cap. 0;
}

abbrev work : Work
work = record {
  item =
      claimed_row (text "w1") (text "2024-05-02") (text "2024-05-03") (item_in QueueState.queued);
  batch_id = text "b1";
  batch = batch_in BatchState.migrating;
}

refused_never_creates_example :
    (process_item (ctx_of operator (text "op")) client work claimed_store).1.requests
    ≡ claimed_store.requests
unfolding assert_posting_allowed is_live is_enabled text_eq
refused_never_creates_example =
    refused_never_creates (ctx_of operator (text "op")) client work
      (posting_disabled posting_enabled_false) claimed_store refl refl

migrated_iff_example :
    (target_status BatchState.migrating (item_in QueueState.posted ∷ []) ≡ some BatchState.migrated)
    ↔ ((BatchState.migrating ≡ BatchState.migrating)
        × (item_in QueueState.posted ∷ [] ≢ [])
        × (every (λ (i : QueueItem). i.status == QueueState.posted) (item_in QueueState.posted ∷ [])
            ≡ true))
migrated_iff_example = migrated_iff BatchState.migrating (item_in QueueState.posted ∷ [])
