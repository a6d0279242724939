-- ===== src/Executor/Unknown.antt =====
-- `resolveUnknownOutcomes` of src/worker/executor.js: the fate of items whose outcome is unknown, by a
-- search for their migration tag in the books.
use eco_green_zoho_migration.Base.{
  ℕ, suc, Text, text, Option, none, some, List, [], ◌∷◌, ◌++◌, length,
}
use eco_green_zoho_migration.Errors.{type_error}
use eco_green_zoho_migration.Money.Digits.{print_digits}
use eco_green_zoho_migration.States.{QueueState}
use eco_green_zoho_migration.Store.{
  Action, pure, gets, or_throw, ◌>>=◌, ◌>>◌, Batch, Voucher, QueueItem, MigrationStatus,
  get_voucher, update_voucher, update_item, object, nothing, values,
}
use eco_green_zoho_migration.Audit.{Context}
use eco_green_zoho_migration.Exceptions.{Condition, raise}
use eco_green_zoho_migration.Executor.Client.{Client}
use eco_green_zoho_migration.Executor.Outcome.{audit_item, condition}
use eco_green_zoho_migration.Executor.Slice.{assert_item_move, items_in, derive_batch_status}

pub record Resolved : Type 0 where
  pub posted : ℕ
  pub requeued : ℕ
  pub dead_lettered : ℕ

-- `JSON.stringify` of the list of ids
abbrev join : List Text → Text
join [] = []
join (t ∷ []) = b'"' ∷ t ++ b'"' ∷ []
join (t ∷ u ∷ ts) = (b'"' ∷ t ++ b'"' ∷ b',' ∷ []) ++ join (u ∷ ts)

abbrev mismatch : Text → QueueItem → Voucher → List Text → Condition
mismatch batch_id i v ids =
    record (condition (text "TARGET_MISMATCH") (print_digits i.id) (text "TARGET_MISMATCH")
      (print_digits (length ids)
        ++ text " Books records match migration tag for queue item "
        ++ print_digits i.id
        ++ text "; ambiguous")
      (some v.branch_code) batch_id (some v.id)) {
        evidence = object ((text "matches", b'[' ∷ join ids ++ b']' ∷ []) ∷ []);
      }

-- One item, by the ids of the records that carry its tag.
unfoldable pub resolve_item :
    Context → Text → QueueItem → Voucher → Resolved → List Text → Action Resolved
resolve_item ctx batch_id i v n [] = do
  assert_item_move QueueState.unknown_outcome QueueState.queued
  update_item i.id
      λ j. record j { status = QueueState.queued; run_after = none; updated_at = ctx.now }
  update_voucher v.id
      λ u. record u { migration_status = MigrationStatus.queued; updated_at = ctx.now }
  audit_item ctx "QUEUE.UNKNOWN_RESOLVED_REQUEUED" i.id nothing nothing (some v.branch_code)
      batch_id
  pure (record n { requeued = suc n.requeued })
resolve_item ctx batch_id i v n (id ∷ []) = do
  assert_item_move QueueState.unknown_outcome QueueState.posted
  update_item i.id λ j. record j { status = QueueState.posted; updated_at = ctx.now }
  update_voucher v.id λ u. record u {
    migration_status = MigrationStatus.posted;
    zoho_record_id = some id;
    updated_at = ctx.now;
  }
  audit_item ctx "QUEUE.UNKNOWN_RESOLVED_POSTED" i.id nothing (values (id ∷ []))
      (some v.branch_code) batch_id
  pure (record n { posted = suc n.posted })
resolve_item ctx batch_id i v n (id ∷ id' ∷ ids) = do
  assert_item_move QueueState.unknown_outcome QueueState.dead_letter
  update_item i.id λ j. record j {
    status = QueueState.dead_letter;
    last_error_code = some (text "TARGET_MISMATCH");
    updated_at = ctx.now;
  }
  update_voucher v.id
      λ u. record u { migration_status = MigrationStatus.dead_letter; updated_at = ctx.now }
  raised ← raise ctx (mismatch batch_id i v (id ∷ id' ∷ ids))
  audit_item ctx "QUEUE.UNKNOWN_RESOLVED_TARGET_MISMATCH" i.id nothing nothing (some v.branch_code)
      batch_id
  pure (record n { dead_lettered = suc n.dead_lettered })

-- Reading the target module of a voucher that is missing throws.
unfoldable pub resolve_items : Context → Client → Text → Resolved → List QueueItem → Action Resolved
resolve_items ctx client batch_id n [] = pure n
resolve_items ctx client batch_id n (i ∷ is) = do
  found ← get_voucher i.voucher_id
  v ← or_throw found type_error
  m ←
      resolve_item ctx batch_id i v n
        (client.search_by_migration_tag v.target_module i.idempotency_key)
  resolve_items ctx client batch_id m is

unfoldable pub resolve_unknown_outcomes : Context → Client → Text → Action (Resolved × Option Batch)
resolve_unknown_outcomes ctx client batch_id = do
  items ← gets λ s. items_in batch_id QueueState.unknown_outcome s.queue_items.rows
  n ←
      resolve_items ctx client batch_id (record { posted = 0; requeued = 0; dead_lettered = 0 })
        items
  batch ← derive_batch_status ctx batch_id
  pure (n, batch)
