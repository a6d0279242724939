-- ===== src/Batch/Enqueuing.antt =====
-- `enqueueBatch` of src/core/batch.js.
use eco_green_zoho_migration.Base.{
  ℕ, suc, Text, text, Bool, true, false, Option, none, some, List, [], ◌∷◌,
}
use eco_green_zoho_migration.Errors.{Result, ok, err, unique_violation, batch_not_found}
use eco_green_zoho_migration.States.{BatchState, QueueState}
use eco_green_zoho_migration.Store.{
  Store, Action, pure, or_throw, ◌>>=◌, ◌>>◌, Batch, Voucher, QueueItem, get_batch, update_batch,
  insert_item, key, counts, batch_status,
}
use eco_green_zoho_migration.Audit.{Context, entry, emit}
use eco_green_zoho_migration.Batch.Scope.{ScopeKey, compute_scope}
use eco_green_zoho_migration.Batch.Creating.{assert_batch_move}
use eco_green_zoho_migration.Batch.Approving.{own_scope, or_batch}

unfoldable pub new_item : Context → Text → Voucher → ℕ → QueueItem
new_item ctx batch_id v id = record {
  id = id;
  batch_id = batch_id;
  voucher_id = v.id;
  idempotency_key = v.source_transaction_hash;
  status = QueueState.queued;
  claimed_by = none;
  claimed_at = none;
  claim_expires_at = none;
  run_after = none;
  attempts = 0;
  last_error_code = none;
  created_at = ctx.now;
  updated_at = ctx.now;
}

-- A key that is taken is skipped; every other error is thrown on.
abbrev pub caught : Result (Unit {0}) × Store → Result Bool × Store
caught (ok u, s) = (ok true, s)
caught (err unique_violation, s) = (ok false, s)
caught (err e, s) = (err e, s)

pub record Counts : Type 0 where
  pub enqueued : ℕ
  pub skipped_existing : ℕ

abbrev pub counted : Counts → Bool → Counts
counted n true = record { enqueued = suc n.enqueued; skipped_existing = n.skipped_existing }
counted n false = record { enqueued = n.enqueued; skipped_existing = suc n.skipped_existing }

unfoldable pub enqueue_voucher : Context → Text → Voucher → Action Bool
enqueue_voucher ctx batch_id v s = caught (insert_item (new_item ctx batch_id v) s)

unfoldable pub enqueue_vouchers : Context → Text → Counts → List Voucher → Action Counts
enqueue_vouchers ctx batch_id n [] = pure n
enqueue_vouchers ctx batch_id n (v ∷ vs) = do
  new ← enqueue_voucher ctx batch_id v
  enqueue_vouchers ctx batch_id (counted n new) vs

abbrev or_worker : Option Text → Option Text
or_worker none = some (text "worker")
or_worker (some a) = some a

-- From the update of the batch's status on.
unfoldable pub mark_queued : Context → Text → Batch → Counts → Action (Batch × Counts)
mark_queued ctx batch_id b n = do
  updated ←
      update_batch batch_id (λ c. record c { status = BatchState.queued; updated_at = ctx.now })
  emit ctx
      (record (entry (or_worker ctx.actor) "BATCH.ENQUEUE" "migration_batches" (key batch_id)) {
        before = batch_status b.status [];
        after = counts (or_batch updated b).status n.enqueued n.skipped_existing;
        branch_code = some b.branch_code;
        period = some b.period;
        batch_id = some batch_id;
      })
  pure (or_batch updated b, n)

unfoldable pub enqueue_batch : (ScopeKey → Text) → Context → Text → Action (Batch × Counts)
enqueue_batch digest ctx batch_id = do
  found ← get_batch batch_id
  b ← or_throw found (batch_not_found batch_id)
  assert_batch_move b.status BatchState.queued
  sc ← compute_scope digest (own_scope b)
  n ← enqueue_vouchers ctx batch_id (record { enqueued = 0; skipped_existing = 0 }) sc.vouchers
  mark_queued ctx batch_id b n
