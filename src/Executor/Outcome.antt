-- ===== src/Executor/Outcome.antt =====
-- What `processItem` of src/worker/executor.js does with the answer to an attempt, by its class. The
-- clock is read once for a call.
use eco_green_zoho_migration.Base.{
  ℕ, ◌+◌, Text, String, text, Bool, true, false, Option, none, some, [], ◌∷◌, ◌++◌, if◌then◌else◌,
  or_empty, leb, option_text_Eq, nat_Eq,
}
use eco_green_zoho_migration.Money.Digits.{print_digits}
use eco_green_zoho_migration.States.{
  BatchState, QueueState, batch_transitions, BatchState_Eq, allows,
}
use eco_green_zoho_migration.Store.{
  Action, pure, ◌>>=◌, ◌>>◌, Batch, Voucher, QueueItem, ResponseClass, MigrationStatus, null,
  success, rate_limit, retryable, auth, non_retryable, unknown, update_voucher, update_item,
  update_attempt, update_batch, release_claim, row_id, Snapshot, nothing, values,
}
use eco_green_zoho_migration.Audit.{Context, entry, emit}
use eco_green_zoho_migration.Exceptions.{Condition, raise}
use eco_green_zoho_migration.Executor.Client.{Client, Answer, backoff_ms}

abbrev pub or_worker : Option Text → Option Text
or_worker none = some (text "worker")
or_worker (some a) = some a

-- `auditItem`
unfoldable pub audit_item :
    Context → String → ℕ → (before after : Snapshot) → Option Text → Text → Action (Unit {0})
audit_item ctx action id before after branch_code batch_id =
    emit ctx (record (entry (or_worker ctx.actor) action "queue_items" (row_id id)) {
      actor_role = ctx.actor_role;
      before = before;
      after = after;
      branch_code = branch_code;
      batch_id = some batch_id;
    })

-- What an item's processing tells the slice.
pub record Progress : Type 0 where
  pub circuit_break : Bool
  pub posted : Bool

abbrev pub going_on : Progress
going_on = record { circuit_break = false; posted = false }

-- The exceptions of the executor are all P1, with a key made of `exec`, a subject and the condition.
unfoldable pub condition :
    (category subject suffix message : Text)
    → (branch_code : Option Text) → (batch_id : Text) → (voucher_id : Option ℕ) → Condition
condition category subject suffix message branch_code batch_id voucher_id = record {
  category = category;
  severity = text "P1";
  message = message;
  dedupe_key = text "exec:" ++ subject ++ text ":" ++ suffix;
  branch_code = branch_code;
  period = none;
  run_id = none;
  file_id = none;
  voucher_id = voucher_id;
  batch_id = some batch_id;
  financial_impact = text "0.00";
  evidence = null;
}

abbrev pub coalesce : Option Text → Option Text → Option Text
coalesce none b = b
coalesce (some a) b = some a

-- A template `${x}` of an absent value prints 'undefined'.
abbrev printed : Option Text → Text
printed none = text "undefined"
printed (some t) = t

-- The item at hand, as it was claimed, with what the slice knows.
pub record Work : Type 0 where
  pub item : QueueItem
  pub batch_id : Text
  pub batch : Batch

abbrev pub about : Text → Text → Text → Voucher → Work → Condition
about category suffix message v w =
    condition category (print_digits w.item.id) suffix message (some v.branch_code) w.batch_id
      (some v.id)

unfoldable pub on_success : Context → Work → Voucher → Answer → Action Progress
on_success ctx w v r = do
  release_claim w.item.claimed_by QueueState.posted w.item.id
  update_item w.item.id λ i. record i { attempts = w.item.attempts + 1; updated_at = ctx.now }
  update_voucher v.id λ u. record u {
    migration_status = MigrationStatus.posted;
    zoho_record_id = r.record_id;
    attempt_count = w.item.attempts + 1;
    updated_at = ctx.now;
  }
  audit_item ctx "QUEUE.POSTED" w.item.id nothing (values (or_empty r.record_id ∷ []))
      (some v.branch_code) w.batch_id
  pure (record { circuit_break = false; posted = true })

-- `if (BATCH_TRANSITIONS[batchRow.status]?.includes('PAUSED'))`
abbrev pause_batch : Context → Work → Action (Unit {0})
pause_batch ctx w =
    if allows batch_transitions w.batch.status BatchState.paused
    then (update_batch w.batch_id
          (λ b. record b { status = BatchState.paused; updated_at = ctx.now })
        >> pure tt)
    else pure tt

-- The credentials are refused: the item goes back to the queue and the batch is paused.
unfoldable pub on_auth : Context → Work → Voucher → Answer → Action Progress
on_auth ctx w v r = do
  release_claim w.item.claimed_by QueueState.queued w.item.id
  update_voucher v.id
      λ u. record u { migration_status = MigrationStatus.queued; updated_at = ctx.now }
  pause_batch ctx w
  raised ← raise ctx (
      condition (text "AUTHENTICATION_ERROR") w.batch_id (text "AUTHENTICATION_ERROR")
        (text "Authentication failure posting queue item "
          ++ print_digits w.item.id
          ++ text ": "
          ++ printed (coalesce r.reason r.message))
        (some v.branch_code) w.batch_id (some v.id))
  audit_item ctx "QUEUE.AUTH_CIRCUIT_BREAK" w.item.id nothing nothing (some v.branch_code)
      w.batch_id
  pure (record { circuit_break = true; posted = false })

-- The end of an item that failed: its claim, its own row, the voucher's row and the exception.
unfoldable pub give_up :
    Context
    → Work
    → Voucher
    → QueueState
    → MigrationStatus
    → (code : Text) → (keep_code : Bool) → Condition
    → String
    → Action Progress
give_up ctx w v state status code keep_code c action = do
  release_claim w.item.claimed_by state w.item.id
  update_item w.item.id λ i. record i {
    attempts = w.item.attempts + 1;
    last_error_code = some code;
    updated_at = ctx.now;
  }
  update_voucher v.id λ u. record u {
    migration_status = status;
    attempt_count = w.item.attempts + 1;
    last_error_code = if keep_code then some code else u.last_error_code;
    updated_at = ctx.now;
  }
  raised ← raise ctx c
  audit_item ctx action w.item.id nothing nothing (some v.branch_code) w.batch_id
  pure going_on

abbrev or_code : Option Text → Text → Text
or_code none d = d
or_code (some r) d = r

abbrev class_text : ResponseClass → Text
class_text success = text "SUCCESS"
class_text rate_limit = text "RATE_LIMIT"
class_text retryable = text "RETRYABLE"
class_text auth = text "AUTH"
class_text non_retryable = text "NON_RETRYABLE"
class_text unknown = text "UNKNOWN"

abbrev failure_category : ResponseClass → Text
failure_category rate_limit = text "RATE_LIMIT"
failure_category success = text "TRANSIENT_FAILURE"
failure_category retryable = text "TRANSIENT_FAILURE"
failure_category auth = text "TRANSIENT_FAILURE"
failure_category non_retryable = text "TRANSIENT_FAILURE"
failure_category unknown = text "TRANSIENT_FAILURE"

abbrev delay_of : Client → Answer → ℕ → ℕ
delay_of client r attempts = elim (r.retry_after_ms) [
  | none ↦ backoff_ms client attempts
  | some ms ↦ ms
]

-- RETRYABLE or RATE_LIMIT: once more after a delay, unless the attempts are used up.
unfoldable pub on_transient : Context → Client → Work → Voucher → Answer → Action Progress
on_transient ctx client w v r =
    if leb client.max_attempts (w.item.attempts + 1)
    then give_up ctx w v QueueState.dead_letter MigrationStatus.dead_letter
        (or_code r.reason (class_text r.class)) true
        (about (failure_category r.class) (text "DEAD_LETTER")
          (text "Queue item "
            ++ print_digits w.item.id
            ++ text " dead-lettered after "
            ++ print_digits (w.item.attempts + 1)
            ++ text " attempts: "
            ++ printed (coalesce r.reason r.message))
          v w)
        "QUEUE.DEAD_LETTER"
    else (do
      release_claim w.item.claimed_by QueueState.failed_retryable w.item.id
      update_item w.item.id λ i. record i {
        attempts = w.item.attempts + 1;
        run_after = some (client.later ctx.now (delay_of client r (w.item.attempts + 1)));
        last_error_code = some (or_code r.reason (class_text r.class));
        updated_at = ctx.now;
      }
      update_voucher v.id λ u. record u {
        migration_status = MigrationStatus.queued;
        attempt_count = w.item.attempts + 1;
        updated_at = ctx.now;
      }
      audit_item ctx "QUEUE.FAILED_RETRYABLE" w.item.id nothing
          (values (client.later ctx.now (delay_of client r (w.item.attempts + 1)) ∷ []))
          (some v.branch_code) w.batch_id
      pure going_on)

abbrev pub settle_as : ResponseClass → Context → Client → Work → Voucher → Answer → Action Progress
settle_as success ctx client w v r = on_success ctx w v r
settle_as auth ctx client w v r = on_auth ctx w v r
settle_as non_retryable ctx client w v r =
    give_up ctx w v QueueState.failed_final MigrationStatus.failed
      (or_code r.reason (text "NON_RETRYABLE")) true
      (about (text "API_VALIDATION_ERROR") (text "API_VALIDATION_ERROR")
        (text "Non-retryable API error for queue item "
          ++ print_digits w.item.id
          ++ text ": "
          ++ printed (coalesce r.message r.reason))
        v w)
      "QUEUE.FAILED_FINAL"
settle_as unknown ctx client w v r =
    give_up ctx w v QueueState.unknown_outcome MigrationStatus.unknown_outcome
      (or_code r.reason (text "UNKNOWN")) false
      (about (text "UNKNOWN_API_OUTCOME") (text "UNKNOWN_API_OUTCOME")
        (text "Unknown outcome for queue item "
          ++ print_digits w.item.id
          ++ text " (never auto-retried): "
          ++ printed (coalesce r.reason r.message))
        v w)
      "QUEUE.UNKNOWN_OUTCOME"
settle_as retryable ctx client w v r = on_transient ctx client w v r
settle_as rate_limit ctx client w v r = on_transient ctx client w v r

-- Only a success has the id of a record.
abbrev id_if : ResponseClass → Option Text → Option Text
id_if success id = id
id_if rate_limit id = none
id_if retryable id = none
id_if auth id = none
id_if non_retryable id = none
id_if unknown id = none

abbrev recorded_id : Answer → Option Text
recorded_id r = id_if r.class r.record_id

-- `update('api_attempts', …)` with the outcome, and what follows by its class.
unfoldable pub settle : Context → Client → Work → Voucher → ℕ → Answer → Action Progress
settle ctx client w v attempt r = do
  update_attempt attempt λ a. record a {
    response_class = r.class;
    zoho_record_id = recorded_id r;
    error_code = r.reason;
    retry_after_ms = r.retry_after_ms;
    finished_at = some ctx.now;
  }
  settle_as r.class ctx client w v r
