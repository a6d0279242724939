-- ===== src/Store/Calls.antt =====
-- `find`, `get`, `insert`, `update`, `claim` and `releaseClaim` of src/adapters/store/sqlite.js, for
-- the tables of the model.
use eco_green_zoho_migration.Base.{
  ℕ, suc, Text, Bool, true, false, ◌&&◌, Option, none, some, List, [], ◌∷◌, ◌++◌, find, exists,
  if◌then◌else◌, text_lt, ◌==◌, text_Eq, nat_Eq, option_text_Eq,
}
use eco_green_zoho_migration.Errors.{unique_violation}
use eco_green_zoho_migration.States.{QueueState, QueueState_Eq}
use eco_green_zoho_migration.Store.Rows.{
  Voucher, Batch, Approval, QueueItem, ApiAttempt, Assignment, ExceptionRow, ExtractionRun,
}
use eco_green_zoho_migration.Store.Monad.{
  chains, Table, Action, pure, gets, modify, throw_if, ◌>>=◌, ◌>>◌,
}

module _ {ℓ} {R : Type ℓ} where
  -- `UPDATE … SET … WHERE …`
  abbrev pub update_rows : (R → Bool) → (R → R) → List R → List R
  update_rows p f [] = []
  update_rows p f (r ∷ rs) = (if p r then f r else r) ∷ update_rows p f rs

  abbrev pub update_table : (R → Bool) → (R → R) → Table R → Table R
  update_table p f t = record { rows = update_rows p f t.rows; last = t.last }

  -- A new row goes last, with the next id.
  abbrev pub append_row : (ℕ → R) → Table R → Table R
  append_row new t = record { rows = t.rows ++ new (suc t.last) ∷ []; last = suc t.last }

abbrev pub has_id : ℕ → QueueItem → Bool
has_id id i = i.id == id

-- `get` by the primary key
unfoldable pub get_voucher : ℕ → Action (Option Voucher)
get_voucher id = gets (λ s. find (λ v. v.id == id) s.vouchers)

unfoldable pub get_batch : Text → Action (Option Batch)
get_batch id = gets (λ s. find (λ b. b.id == id) s.migration_batches)

unfoldable pub get_approval : Text → Action (Option Approval)
get_approval id = gets (λ s. find (λ a. a.id == id) s.approvals)

unfoldable pub get_assignment : ℕ → Action (Option Assignment)
get_assignment id = gets (λ s. find (λ a. a.id == id) s.assignments.rows)

unfoldable pub get_exception : ℕ → Action (Option ExceptionRow)
get_exception id = gets (λ s. find (λ e. e.id == id) s.exceptions.rows)

unfoldable pub get_run : Text → Action (Option ExtractionRun)
get_run id = gets (λ s. find (λ r. r.id == id) s.extraction_runs)

unfoldable pub update_run : Text → (ExtractionRun → ExtractionRun) → Action (Unit {0})
update_run id f =
    modify λ s. record s { extraction_runs = update_rows (λ r. r.id == id) f s.extraction_runs }

-- `update(table, id, patch)`, which returns the row as it is then
unfoldable pub update_voucher : ℕ → (Voucher → Voucher) → Action (Unit {0})
update_voucher id f = modify λ s. record s { vouchers = update_rows (λ v. v.id == id) f s.vouchers }

unfoldable pub update_batch : Text → (Batch → Batch) → Action (Option Batch)
update_batch id f =
    modify
      (λ s. record s { migration_batches = update_rows (λ b. b.id == id) f s.migration_batches })
    >> get_batch id

unfoldable pub update_approval : Text → (Approval → Approval) → Action (Unit {0})
update_approval id f =
    modify λ s. record s { approvals = update_rows (λ a. a.id == id) f s.approvals }

unfoldable pub update_item : ℕ → (QueueItem → QueueItem) → Action (Unit {0})
update_item id f = modify λ s. record s { queue_items = update_table (has_id id) f s.queue_items }

unfoldable pub update_attempt : ℕ → (ApiAttempt → ApiAttempt) → Action (Unit {0})
update_attempt id f =
    modify λ s. record s { api_attempts = update_table (λ a. a.id == id) f s.api_attempts }

unfoldable pub update_assignment : ℕ → (Assignment → Assignment) → Action (Option Assignment)
update_assignment id f =
    modify (λ s. record s { assignments = update_table (λ a. a.id == id) f s.assignments })
    >> get_assignment id

unfoldable pub update_exception : ℕ → (ExceptionRow → ExceptionRow) → Action (Option ExceptionRow)
update_exception id f =
    modify (λ s. record s { exceptions = update_table (λ e. e.id == id) f s.exceptions })
    >> get_exception id

-- `insert`: a row that breaks a UNIQUE constraint is refused, and nothing is written.
unfoldable pub insert_item : (ℕ → QueueItem) → Action (Unit {0})
insert_item new = do
  taken ← gets λ s. exists (λ i. i.idempotency_key == (new 0).idempotency_key) s.queue_items.rows
  throw_if taken unique_violation
  modify λ s. record s { queue_items = append_row new s.queue_items }

-- Returns the id of the new row.
unfoldable pub insert_attempt : (ℕ → ApiAttempt) → Action ℕ
insert_attempt new = do
  taken ← gets λ s.
      exists (λ a. a.queue_item_id == (new 0).queue_item_id && a.attempt_no == (new 0).attempt_no)
        s.api_attempts.rows
  throw_if taken unique_violation
  modify λ s. record s { api_attempts = append_row new s.api_attempts }
  gets λ s. s.api_attempts.last

-- `uk` is branch_code|period|transaction_class: the three columns stand for it.
abbrev pub same_slot : Assignment → Assignment → Bool
same_slot a b =
    a.branch_code == b.branch_code
    && a.period == b.period
    && a.transaction_class == b.transaction_class

unfoldable pub insert_assignment : (ℕ → Assignment) → Action Assignment
insert_assignment new = do
  taken ← gets λ s. exists (λ a. same_slot a (new 0)) s.assignments.rows
  throw_if taken unique_violation
  modify λ s. record s { assignments = append_row new s.assignments }
  gets λ s. new s.assignments.last

unfoldable pub insert_exception : (ℕ → ExceptionRow) → Action ExceptionRow
insert_exception new = do
  taken ← gets λ s. exists (λ e. e.dedupe_key == (new 0).dedupe_key) s.exceptions.rows
  throw_if taken unique_violation
  modify λ s. record s { exceptions = append_row new s.exceptions }
  gets λ s. new s.exceptions.last

-- `claimed_by IS NULL OR claim_expires_at < now`; a comparison with NULL does not hold.
abbrev pub is_free : Text → Option Text → Option Text → Bool
is_free now none expires = true
is_free now (some w) none = false
is_free now (some w) (some e) = text_lt e now

abbrev pub can_claim : QueueState → Text → QueueItem → Bool
can_claim expected now i = i.status == expected && is_free now i.claimed_by i.claim_expires_at

abbrev pub claimed_row : Text → Text → Text → QueueItem → QueueItem
claimed_row worker now expires i = record i {
  status = QueueState.claimed;
  claimed_by = some worker;
  claimed_at = some now;
  claim_expires_at = some expires;
}

-- `claim`: the row as claimed, or null if another worker holds it or its status has changed.
unfoldable pub claim : (worker now expires : Text) → QueueState → ℕ → Action (Option QueueItem)
claim worker now expires expected id = do
  before ← gets λ s. find (λ i. has_id id i && can_claim expected now i) s.queue_items.rows
  modify λ s. record s {
    queue_items =
        update_table (λ i. has_id id i && can_claim expected now i) (claimed_row worker now expires)
          s.queue_items;
  }
  pure (elim before [ none ↦ none | some i ↦ some (claimed_row worker now expires i) ])

abbrev pub released_row : QueueState → QueueItem → QueueItem
released_row status i = record i {
  status = status;
  claimed_by = none;
  claimed_at = none;
  claim_expires_at = none;
}

-- `releaseClaim`: only the worker that holds the item moves it on. `claimed_by = NULL` holds of no row.
abbrev pub holds : ℕ → Option Text → QueueItem → Bool
holds id none i = false
holds id (some worker) i = has_id id i && i.claimed_by == some worker

unfoldable pub release_claim : (worker : Option Text) → QueueState → ℕ → Action (Unit {0})
release_claim worker status id = modify λ s. record s {
  queue_items = update_table (holds id worker) (released_row status) s.queue_items;
}

-- Named on an `unfolding` line, this opens the calls of the store and their chaining.
unfoldable pub calls : Unit {0}
unfolding chains get_run update_run get_voucher get_batch get_approval get_assignment get_exception
    update_voucher update_batch update_approval update_item update_attempt update_assignment
    update_exception insert_item insert_attempt insert_assignment insert_exception claim
    release_claim
calls = tt
