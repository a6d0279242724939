-- ===== src/States/Tables.antt =====
-- The states of src/core/states.js, `RUN_TRANSITIONS`, `BATCH_TRANSITIONS` and
-- `QUEUE_TRANSITIONS`, and `assertTransition` over any such table.
use eco_green_zoho_migration.Base.{
  ℕ, ◌≡◌, ◌↔◌, Bool, true, List, [], ◌∷◌, arith, nat_eq, Eq, includes,
}

pub data RunState : Type 0 where
  received claimed validation_failed archived staged summarised source_reconciled
        source_recon_failed classified transformed ready_for_approval exception :
      RunState

-- The position of a state, by which two states are compared.
abbrev run_index : RunState → ℕ
run_index received = 0
run_index claimed = 1
run_index validation_failed = 2
run_index archived = 3
run_index staged = 4
run_index summarised = 5
run_index source_reconciled = 6
run_index source_recon_failed = 7
run_index classified = 8
run_index transformed = 9
run_index ready_for_approval = 10
run_index exception = 11

pub run_eq_iff : (a b : RunState) → (nat_eq (run_index a) (run_index b) ≡ true) ↔ (a ≡ b)
run_eq_iff a b = ground arith

instance abbrev pub RunState_Eq : Eq RunState
RunState_Eq = record { same = λ a b. nat_eq (run_index a) (run_index b); same_iff = run_eq_iff }

pub data BatchState : Type 0 where
  draft ready_for_approval approved approval_invalidated queued migrating paused partially_migrated
        migrated post_reconciliation reconciliation_failed signed_off rejected :
      BatchState

-- The position of a state, by which two states are compared.
abbrev batch_index : BatchState → ℕ
batch_index draft = 0
batch_index ready_for_approval = 1
batch_index approved = 2
batch_index approval_invalidated = 3
batch_index queued = 4
batch_index migrating = 5
batch_index paused = 6
batch_index partially_migrated = 7
batch_index migrated = 8
batch_index post_reconciliation = 9
batch_index reconciliation_failed = 10
batch_index signed_off = 11
batch_index rejected = 12

pub batch_eq_iff : (a b : BatchState) → (nat_eq (batch_index a) (batch_index b) ≡ true) ↔ (a ≡ b)
batch_eq_iff a b = ground arith

instance abbrev pub BatchState_Eq : Eq BatchState
BatchState_Eq = record {
  same = λ a b. nat_eq (batch_index a) (batch_index b);
  same_iff = batch_eq_iff;
}

pub data QueueState : Type 0 where
  queued claimed posted failed_retryable failed_final unknown_outcome dead_letter paused :
      QueueState

-- The position of a state, by which two states are compared.
abbrev queue_index : QueueState → ℕ
queue_index queued = 0
queue_index claimed = 1
queue_index posted = 2
queue_index failed_retryable = 3
queue_index failed_final = 4
queue_index unknown_outcome = 5
queue_index dead_letter = 6
queue_index paused = 7

pub queue_eq_iff : (a b : QueueState) → (nat_eq (queue_index a) (queue_index b) ≡ true) ↔ (a ≡ b)
queue_eq_iff a b = ground arith

instance abbrev pub QueueState_Eq : Eq QueueState
QueueState_Eq = record {
  same = λ a b. nat_eq (queue_index a) (queue_index b);
  same_iff = queue_eq_iff;
}

unfoldable pub run_transitions : RunState → List RunState
run_transitions RunState.received = RunState.claimed ∷ []
run_transitions RunState.claimed =
    RunState.validation_failed ∷ RunState.archived ∷ RunState.exception ∷ RunState.received ∷ []
run_transitions RunState.validation_failed = RunState.received ∷ []
run_transitions RunState.archived = RunState.staged ∷ RunState.exception ∷ []
run_transitions RunState.staged = RunState.summarised ∷ RunState.exception ∷ []
run_transitions RunState.summarised = RunState.source_reconciled ∷ RunState.source_recon_failed ∷ []
run_transitions RunState.source_recon_failed = RunState.summarised ∷ RunState.exception ∷ []
run_transitions RunState.source_reconciled = RunState.classified ∷ RunState.exception ∷ []
run_transitions RunState.classified =
    RunState.transformed ∷ RunState.exception ∷ RunState.source_reconciled ∷ []
run_transitions RunState.transformed =
    RunState.ready_for_approval ∷ RunState.classified ∷ RunState.exception ∷ []
run_transitions RunState.ready_for_approval = RunState.transformed ∷ RunState.classified ∷ []
run_transitions RunState.exception =
    RunState.received ∷ RunState.staged ∷ RunState.summarised ∷ RunState.classified ∷ []

unfoldable pub batch_transitions : BatchState → List BatchState
batch_transitions BatchState.draft = BatchState.ready_for_approval ∷ BatchState.rejected ∷ []
batch_transitions BatchState.ready_for_approval =
    BatchState.approved ∷ BatchState.rejected ∷ BatchState.draft ∷ []
batch_transitions BatchState.approved =
    BatchState.queued ∷ BatchState.approval_invalidated ∷ BatchState.rejected ∷ []
batch_transitions BatchState.approval_invalidated = BatchState.draft ∷ []
batch_transitions BatchState.queued =
    BatchState.migrating ∷ BatchState.paused ∷ BatchState.approval_invalidated ∷ []
batch_transitions BatchState.migrating =
    BatchState.paused ∷ BatchState.partially_migrated ∷ BatchState.migrated ∷ []
batch_transitions BatchState.paused = BatchState.queued ∷ BatchState.migrating ∷ []
batch_transitions BatchState.partially_migrated =
    BatchState.migrating ∷ BatchState.paused ∷ BatchState.post_reconciliation ∷ []
batch_transitions BatchState.migrated = BatchState.post_reconciliation ∷ []
batch_transitions BatchState.post_reconciliation =
    BatchState.signed_off ∷ BatchState.reconciliation_failed ∷ []
batch_transitions BatchState.reconciliation_failed =
    BatchState.post_reconciliation ∷ BatchState.partially_migrated ∷ []
batch_transitions BatchState.signed_off = []
batch_transitions BatchState.rejected = BatchState.draft ∷ []

unfoldable pub queue_transitions : QueueState → List QueueState
queue_transitions QueueState.queued = QueueState.claimed ∷ QueueState.paused ∷ []
queue_transitions QueueState.claimed =
    QueueState.posted ∷ QueueState.failed_retryable ∷ QueueState.failed_final
    ∷ QueueState.unknown_outcome ∷ QueueState.queued ∷ []
queue_transitions QueueState.failed_retryable =
    QueueState.queued ∷ QueueState.dead_letter ∷ QueueState.paused ∷ []
queue_transitions QueueState.unknown_outcome =
    QueueState.posted ∷ QueueState.queued ∷ QueueState.dead_letter ∷ []
queue_transitions QueueState.paused = QueueState.queued ∷ []
queue_transitions QueueState.posted = []
queue_transitions QueueState.failed_final = []
queue_transitions QueueState.dead_letter = QueueState.queued ∷ []

-- `table[from].includes(to)`
abbrev pub allows {ℓ} : {S : Type ℓ} ⦃e : Eq S⦄ → (S → List S) → S → S → Bool
allows table from to = includes (table from) to
