-- ===== src/Executor/Slice.antt =====
-- `collectCandidates`, `deriveBatchStatus` and `runQueueSlice` of src/worker/executor.js.
use eco_green_zoho_migration.Base.{
  ℕ, suc, Text, Bool, false, not, ◌&&◌, ◌||◌, Option, none, some, List, [], ◌∷◌, ◌++◌, map, filter,
  every, exists, if◌then◌else◌, truthy, or_empty, text_lt, leb, ◌==◌, text_Eq,
}
use eco_green_zoho_migration.Errors.{batch_not_found, illegal_transition, queue_item_move}
use eco_green_zoho_migration.States.{
  BatchState, QueueState, BatchState_Eq, QueueState_Eq, batch_transitions, queue_transitions,
  allows,
}
use eco_green_zoho_migration.Store.{
  Action, pure, gets, throw_if, or_throw, for_each, ◌>>=◌, ◌>>◌, Batch, QueueItem, get_batch,
  update_batch, update_item, claim, queue_status,
}
use eco_green_zoho_migration.Audit.{Context}
use eco_green_zoho_migration.Batch.Scope.{sort_by}
use eco_green_zoho_migration.Batch.Creating.{assert_batch_move}
use eco_green_zoho_migration.Executor.Client.{Client}
use eco_green_zoho_migration.Executor.Outcome.{Progress, audit_item}
use eco_green_zoho_migration.Executor.Processing.{process_item}

abbrev pub items_in : Text → QueueState → List QueueItem → List QueueItem
items_in batch_id st items = filter (λ i. i.batch_id == batch_id && i.status == st) items

-- `!i.run_after || i.run_after <= nowTs`
abbrev is_due : Text → QueueItem → Bool
is_due now i = not (truthy i.run_after) || not (text_lt now (or_empty i.run_after))

abbrev is_expired : Text → QueueItem → Bool
is_expired now i = truthy i.claim_expires_at && text_lt (or_empty i.claim_expires_at) now

abbrev pub assert_item_move : QueueState → QueueState → Action (Unit {0})
assert_item_move from to =
    throw_if (not (allows queue_transitions from to)) (illegal_transition (queue_item_move from to))

unfoldable pub requeue : Context → Text → QueueItem → Action (Unit {0})
requeue ctx batch_id i = do
  assert_item_move QueueState.failed_retryable QueueState.queued
  update_item i.id λ j. record j { status = QueueState.queued; updated_at = ctx.now }
  audit_item ctx "QUEUE.BACKOFF_ELAPSED" i.id (queue_status QueueState.failed_retryable)
      (queue_status QueueState.queued) none batch_id

-- An item to claim, and the status that it is expected to have.
pub record Candidate : Type 0 where
  pub item : QueueItem
  pub expected : QueueState

abbrev expecting : QueueState → List QueueItem → List Candidate
expecting st items = map (λ i. record { item = i; expected = st }) items

unfoldable pub collect_candidates : Context → Text → Action (List Candidate)
collect_candidates ctx batch_id = do
  queued ← gets λ s. items_in batch_id QueueState.queued s.queue_items.rows
  due ← gets λ s.
      filter (is_due ctx.now) (items_in batch_id QueueState.failed_retryable s.queue_items.rows)
  for_each due (requeue ctx batch_id)
  expired ←
      gets
        λ s. filter (is_expired ctx.now) (items_in batch_id QueueState.claimed s.queue_items.rows)
  pure (
      expecting QueueState.queued (sort_by (λ i. i.created_at) (queued ++ due))
      ++ expecting QueueState.claimed (sort_by (λ i. i.created_at) expired))

abbrev is_posted : QueueItem → Bool
is_posted i = i.status == QueueState.posted

-- The status that the items of a batch suggest.
unfoldable pub suggested : List QueueItem → Option BatchState
suggested [] = none
suggested (i ∷ is) =
    if every is_posted (i ∷ is)
    then some BatchState.migrated
    else if exists is_posted (i ∷ is)
    then some BatchState.partially_migrated
    else none

-- The status that the batch is moved to, if any.
unfoldable pub target_status : BatchState → List QueueItem → Option BatchState
unfolding suggested
target_status current items =
    if current == BatchState.paused then none else elim (suggested items) [
      | none ↦ none
      | some target ↦
          if not (target == current) && allows batch_transitions current target
          then some target
          else none
    ]

abbrev move_batch : Context → Text → Batch → Option BatchState → Action (Option Batch)
move_batch ctx batch_id current none = pure (some current)
move_batch ctx batch_id current (some target) = do
  assert_batch_move current.status target
  update_batch batch_id λ b. record b { status = target; updated_at = ctx.now }

abbrev derive_from : Context → Text → Option Batch → Action (Option Batch)
derive_from ctx batch_id none = pure none
derive_from ctx batch_id (some current) = do
  items ← gets λ s. filter (λ i. i.batch_id == batch_id) s.queue_items.rows
  move_batch ctx batch_id current (target_status current.status items)

unfoldable pub derive_batch_status : Context → Text → Action (Option Batch)
derive_batch_status ctx batch_id = do current ← get_batch batch_id; derive_from ctx batch_id current

-- The arguments of `runQueueSlice`: `in_time n` is whether the deadline has not passed when the loop
-- comes to its n-th candidate, and `expires` is when a claim made now runs out.
pub record Slice : Type 0 where
  pub batch_id : Text
  pub worker_id : Text
  pub max_items : ℕ
  pub in_time : ℕ → Bool
  pub expires : Text

pub record Tally : Type 0 where
  pub processed : ℕ
  pub posted : ℕ
  pub circuit_broken : Bool

abbrev tallied : Tally → Progress → Tally
tallied n p = record {
  processed = suc n.processed;
  posted = if p.posted then suc n.posted else n.posted;
  circuit_broken = p.circuit_break;
}

abbrev after_item : Tally → (Tally → Action Tally) → Progress → Action Tally
after_item t rest p = if p.circuit_break then pure (tallied t p) else rest (tallied t p)

-- What follows a claim: another worker won the race, or the item is processed.
unfoldable pub work_claimed :
    Context
    → Client
    → Slice
    → Batch
    → Tally
    → (rest : Tally → Action Tally) → Option QueueItem
    → Action Tally
work_claimed ctx client sl b t rest none = rest t
work_claimed ctx client sl b t rest (some i) = do
  p ← process_item ctx client (record { item = i; batch_id = sl.batch_id; batch = b })
  after_item t rest p

-- The loop over the candidates, from the n-th on.
unfoldable pub work_through :
    Context → Client → Slice → Batch → ℕ → Tally → List Candidate → Action Tally
work_through ctx client sl b n t [] = pure t
work_through ctx client sl b n t (c ∷ cs) =
    if leb sl.max_items t.processed || not (sl.in_time n)
    then pure t
    else (claim sl.worker_id ctx.now sl.expires c.expected c.item.id
        >>= work_claimed ctx client sl b t (λ u. work_through ctx client sl b (suc n) u cs))

abbrev or_batch : Option Batch → Batch → Batch
or_batch none b = b
or_batch (some c) b = c

abbrev start_migrating : Context → Slice → Batch → Action Batch
start_migrating ctx sl b =
    if b.status == BatchState.queued
    then (do
      assert_batch_move b.status BatchState.migrating
      updated ←
          update_batch sl.batch_id
            λ c. record c { status = BatchState.migrating; updated_at = ctx.now }
      pure (or_batch updated b))
    else pure b

abbrev run_live : Context → Client → Slice → Batch → Action (Tally × Option Batch)
run_live ctx client sl b = do
  live ← start_migrating ctx sl b
  candidates ← collect_candidates ctx sl.batch_id
  t ←
      work_through ctx client sl live 0
        (record { processed = 0; posted = 0; circuit_broken = false }) candidates
  after ← derive_batch_status ctx sl.batch_id
  pure (t, after)

abbrev run_found : Context → Client → Slice → Batch → Action (Tally × Option Batch)
run_found ctx client sl b =
    if b.status == BatchState.paused
    then pure (record { processed = 0; posted = 0; circuit_broken = false }, some b)
    else run_live ctx client sl b

unfoldable pub run_queue_slice : Context → Client → Slice → Action (Tally × Option Batch)
run_queue_slice ctx client sl = do
  found ← get_batch sl.batch_id
  b ← or_throw found (batch_not_found sl.batch_id)
  run_found ctx client sl b
