-- ===== src/Executor/Processing.antt =====
-- `processItem` of src/worker/executor.js: one claimed item, from its payload to its outcome. The
-- clock is read once for a call.
use eco_green_zoho_migration.Base.{
  ℕ, ◌+◌, Text, text, Bool, ◌&&◌, Option, none, some, ◌++◌, [], ◌∷◌, find, ◌==◌, option_text_Eq,
  nat_Eq,
}
use eco_green_zoho_migration.Money.Digits.{print_digits}
use eco_green_zoho_migration.States.{QueueState, BatchState_Eq}
use eco_green_zoho_migration.Store.{
  Action, Request, modify, pure, gets, lift, ◌>>=◌, ◌>>◌, Voucher, ApiAttempt, PreviewPayload,
  MigrationStatus, unknown, get_voucher, update_voucher, update_item, insert_attempt, release_claim,
}
use eco_green_zoho_migration.Audit.{Context}
use eco_green_zoho_migration.Exceptions.{raise}
use eco_green_zoho_migration.Executor.Client.{Client, Answer, assert_client_posting_allowed}
use eco_green_zoho_migration.Executor.Outcome.{Progress, going_on, condition, Work, settle}

abbrev id_of : Option Voucher → Option ℕ
id_of none = none
id_of (some v) = some v.id

abbrev branch_of : Option Voucher → Option Text
branch_of none = none
branch_of (some v) = some v.branch_code

-- Without a voucher, it is the message of the TypeError that reading its id throws.
abbrev missing_message : Option Voucher → Text
missing_message none = text "Cannot read properties of null (reading 'id')"
missing_message (some v) = text "No preview_payloads row for voucher " ++ print_digits v.id

-- The payload is missing or cannot be read: dead-lettered for manual review, with the message of the
-- error that was thrown.
unfoldable pub without_payload :
    Context → Work → Option Voucher → (message : Text) → Action Progress
without_payload ctx w v message = do
  release_claim w.item.claimed_by QueueState.dead_letter w.item.id
  update_item w.item.id
      λ i. record i { last_error_code = some (text "PAYLOAD_NOT_FOUND"); updated_at = ctx.now }
  raised ← raise ctx (
      condition (text "SCHEMA_FAILURE") (print_digits w.item.id) (text "PAYLOAD_NOT_FOUND") message
        (branch_of v) w.batch_id (id_of v))
  pure going_on

abbrev pub new_attempt : Context → Work → PreviewPayload → ℕ → ApiAttempt
new_attempt ctx w p id = record {
  id = id;
  queue_item_id = w.item.id;
  attempt_no = w.item.attempts + 1;
  target_module = p.target_module;
  request_hash = p.payload_hash;
  response_class = unknown;
  zoho_record_id = none;
  error_code = none;
  retry_after_ms = none;
  started_at = ctx.now;
  finished_at = none;
}

-- `client.create`: the request goes out, and is answered.
unfoldable pub create : Client → Request → Action Answer
create client r = do
  modify λ s. record s { requests = s.requests ++ r ∷ [] }
  pure (client.create r.target_module r.payload_json r.idempotency_key)

unfoldable pub post : Context → Client → Work → Voucher → PreviewPayload → Action Progress
post ctx client w v p = do
  update_voucher v.id
      λ u. record u { migration_status = MigrationStatus.in_flight; updated_at = ctx.now }
  attempt ← insert_attempt (new_attempt ctx w p)
  lift (assert_client_posting_allowed client)
  answer ← create client (record {
    target_module = p.target_module;
    payload_json = p.payload_json;
    idempotency_key = w.item.idempotency_key;
  })
  settle ctx client w v attempt answer

-- The `findOne` of `loadPayload`.
abbrev pub is_payload_of : Voucher → PreviewPayload → Bool
is_payload_of v p =
    p.voucher_id == v.id
    && some p.transformation_version == v.transformation_version
    && some p.mapping_version == v.mapping_version

abbrev pub by_payload : Context → Client → Work → Voucher → Option PreviewPayload → Action Progress
by_payload ctx client w v none = without_payload ctx w (some v) (missing_message (some v))
by_payload ctx client w v (some p) = by_json (client.json_error p.payload_json)
  where
    by_json : Option Text → Action Progress
    by_json (some message) = without_payload ctx w (some v) message
    by_json none = post ctx client w v p

abbrev pub by_voucher : Context → Client → Work → Option Voucher → Action Progress
by_voucher ctx client w none = without_payload ctx w none (missing_message none)
by_voucher ctx client w (some v) = do
  p ← gets λ s. find (is_payload_of v) s.preview_payloads
  by_payload ctx client w v p

unfoldable pub process_item : Context → Client → Work → Action Progress
process_item ctx client w = do v ← get_voucher w.item.voucher_id; by_voucher ctx client w v
