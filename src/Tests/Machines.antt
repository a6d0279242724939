-- ===== src/Tests/Machines.antt =====
-- The state machines.
use eco_green_zoho_migration.Base.{◌≡◌, refl, [], ◌∷◌, includes, true}
use eco_green_zoho_migration.States.{
  RunState_Eq, BatchState, BatchState_Eq, QueueState_Eq, batch_transitions,
}
use eco_green_zoho_migration.States.History.{start, step, released_was_approved}

released_was_approved_example :
    includes
      (BatchState.queued ∷ BatchState.approved ∷ BatchState.ready_for_approval ∷ [])
      BatchState.approved
    ≡ true
unfolding batch_transitions
released_was_approved_example =
    released_was_approved {s = BatchState.ready_for_approval}
      (step (step start BatchState.approved refl) BatchState.queued refl) refl refl
