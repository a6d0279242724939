-- ===== src/States/Progress.antt =====
-- No state of a workflow is a trap: from each there is a legal way to its success state, except
-- from the states that are final by design.
use eco_green_zoho_migration.Base.{◌≡◌, refl, ◌≢◌, Bool, true, ◌&&◌, List, [], ◌∷◌, Eq, ◌==◌, arith}
use eco_green_zoho_migration.States.Tables.{
  RunState, RunState_Eq, BatchState, BatchState_Eq, QueueState, QueueState_Eq, run_transitions,
  batch_transitions, queue_transitions, allows,
}

module _ {S : Type 0} ⦃e : Eq S⦄ (table : S → List S) where
  -- A state is reached by moves that the table allows.
  pub data Reach : S → S → Type 0 where
    here : {s t : S} → s ≡ t → Reach s t
    next : {s t : S} (u : S) → allows table s u ≡ true → Reach u t → Reach s t

  is_route : S → List S → S → Bool
  is_route s [] t = s == t
  is_route s (u ∷ route) t = allows table s u && is_route u route t

  Reach-of_route : (s : S) (route : List S) (t : S) → is_route s route t ≡ true → Reach s t
  unfolding is_route
  Reach-of_route s [] t h = here ((e.same_iff s t).0 h)
  Reach-of_route s (u ∷ route) t h = next u (ground arith) (Reach-of_route u route t (ground arith))

-- From every state of an extraction run, a way to `ready_for_approval`.
abbrev run_route : RunState → List RunState
run_route RunState.received =
    RunState.claimed ∷ RunState.exception ∷ RunState.classified ∷ RunState.transformed
    ∷ RunState.ready_for_approval ∷ []
run_route RunState.claimed =
    RunState.exception ∷ RunState.classified ∷ RunState.transformed ∷ RunState.ready_for_approval
    ∷ []
run_route RunState.validation_failed =
    RunState.received ∷ RunState.claimed ∷ RunState.exception ∷ RunState.classified
    ∷ RunState.transformed ∷ RunState.ready_for_approval ∷ []
run_route RunState.archived =
    RunState.exception ∷ RunState.classified ∷ RunState.transformed ∷ RunState.ready_for_approval
    ∷ []
run_route RunState.staged =
    RunState.exception ∷ RunState.classified ∷ RunState.transformed ∷ RunState.ready_for_approval
    ∷ []
run_route RunState.summarised =
    RunState.source_reconciled ∷ RunState.classified ∷ RunState.transformed
    ∷ RunState.ready_for_approval ∷ []
run_route RunState.source_recon_failed =
    RunState.exception ∷ RunState.classified ∷ RunState.transformed ∷ RunState.ready_for_approval
    ∷ []
run_route RunState.source_reconciled =
    RunState.classified ∷ RunState.transformed ∷ RunState.ready_for_approval ∷ []
run_route RunState.classified = RunState.transformed ∷ RunState.ready_for_approval ∷ []
run_route RunState.transformed = RunState.ready_for_approval ∷ []
run_route RunState.ready_for_approval = []
run_route RunState.exception =
    RunState.classified ∷ RunState.transformed ∷ RunState.ready_for_approval ∷ []

-- Whatever state an extraction run is in, `received`, failed or `exception` included, it can still
-- become `ready_for_approval` by legal transitions.
pub run_can_get_ready : (s : RunState) → Reach run_transitions s RunState.ready_for_approval
unfolding run_transitions is_route
run_can_get_ready RunState.received =
    Reach-of_route run_transitions _ (run_route RunState.received) _ refl
run_can_get_ready s = Reach-of_route run_transitions _ (run_route s) _ refl

abbrev batch_route : BatchState → List BatchState
batch_route BatchState.draft =
    BatchState.ready_for_approval ∷ BatchState.approved ∷ BatchState.queued ∷ BatchState.migrating
    ∷ BatchState.partially_migrated ∷ BatchState.post_reconciliation ∷ BatchState.signed_off ∷ []
batch_route BatchState.ready_for_approval =
    BatchState.approved ∷ BatchState.queued ∷ BatchState.migrating ∷ BatchState.partially_migrated
    ∷ BatchState.post_reconciliation ∷ BatchState.signed_off ∷ []
batch_route BatchState.approved =
    BatchState.queued ∷ BatchState.migrating ∷ BatchState.partially_migrated
    ∷ BatchState.post_reconciliation ∷ BatchState.signed_off ∷ []
batch_route BatchState.approval_invalidated =
    BatchState.draft ∷ BatchState.ready_for_approval ∷ BatchState.approved ∷ BatchState.queued
    ∷ BatchState.migrating ∷ BatchState.partially_migrated ∷ BatchState.post_reconciliation
    ∷ BatchState.signed_off ∷ []
batch_route BatchState.queued =
    BatchState.migrating ∷ BatchState.partially_migrated ∷ BatchState.post_reconciliation
    ∷ BatchState.signed_off ∷ []
batch_route BatchState.migrating =
    BatchState.partially_migrated ∷ BatchState.post_reconciliation ∷ BatchState.signed_off ∷ []
batch_route BatchState.paused =
    BatchState.migrating ∷ BatchState.partially_migrated ∷ BatchState.post_reconciliation
    ∷ BatchState.signed_off ∷ []
batch_route BatchState.partially_migrated =
    BatchState.post_reconciliation ∷ BatchState.signed_off ∷ []
batch_route BatchState.migrated = BatchState.post_reconciliation ∷ BatchState.signed_off ∷ []
batch_route BatchState.post_reconciliation = BatchState.signed_off ∷ []
batch_route BatchState.reconciliation_failed =
    BatchState.post_reconciliation ∷ BatchState.signed_off ∷ []
batch_route BatchState.signed_off = []
batch_route BatchState.rejected =
    BatchState.draft ∷ BatchState.ready_for_approval ∷ BatchState.approved ∷ BatchState.queued
    ∷ BatchState.migrating ∷ BatchState.partially_migrated ∷ BatchState.post_reconciliation
    ∷ BatchState.signed_off ∷ []

-- Whatever state a migration batch is in, it can still be signed off by legal transitions.
pub batch_can_be_signed_off : (s : BatchState) → Reach batch_transitions s BatchState.signed_off
unfolding batch_transitions is_route
batch_can_be_signed_off BatchState.draft =
    Reach-of_route batch_transitions _ (batch_route BatchState.draft) _ refl
batch_can_be_signed_off s = Reach-of_route batch_transitions _ (batch_route s) _ refl

abbrev queue_route : QueueState → List QueueState
queue_route QueueState.queued = QueueState.claimed ∷ QueueState.posted ∷ []
queue_route QueueState.claimed = QueueState.posted ∷ []
queue_route QueueState.failed_retryable =
    QueueState.queued ∷ QueueState.claimed ∷ QueueState.posted ∷ []
queue_route QueueState.unknown_outcome = QueueState.posted ∷ []
queue_route QueueState.paused = QueueState.queued ∷ QueueState.claimed ∷ QueueState.posted ∷ []
queue_route QueueState.posted = []
queue_route QueueState.failed_final = []
queue_route QueueState.dead_letter = QueueState.queued ∷ QueueState.claimed ∷ QueueState.posted ∷ []

-- A queue item that did not fail for good can still be posted by legal transitions: no other state
-- is a trap, unknown outcomes and dead letters included.
pub queue_can_be_posted :
    (s : QueueState) → s ≢ QueueState.failed_final → Reach queue_transitions s QueueState.posted
unfolding queue_transitions is_route
queue_can_be_posted QueueState.failed_final h = absurd (h refl)
queue_can_be_posted s h = Reach-of_route queue_transitions _ (queue_route s) _ refl
