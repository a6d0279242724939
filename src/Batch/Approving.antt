-- ===== src/Batch/Approving.antt =====
-- `approveBatch` and `invalidateApprovalIfChanged` of src/core/batch.js.
use eco_green_zoho_migration.Base.{
  Text, text, Bool, true, false, not, ◌&&◌, Option, none, some, [], ◌∷◌, ◌++◌, filter, exists,
  if◌then◌else◌, truthy, ◌==◌, text_Eq, option_text_Eq,
}
use eco_green_zoho_migration.Errors.{
  Role, operator, approver, admin, other_role, batch_not_found, forbidden_role, sod_violation,
  scope_changed, unique_violation,
}
use eco_green_zoho_migration.States.{BatchState, BatchState_Eq, batch_transitions, allows}
use eco_green_zoho_migration.Store.{
  Action, pure, throw, gets, modify, throw_if, or_throw, for_each, ◌>>=◌, ◌>>◌, Batch, Approval,
  Voucher, get_batch, update_batch, get_approval, update_approval, update_voucher, key,
  batch_status, scope,
}
use eco_green_zoho_migration.Audit.{Context, Entry, entry, emit}
use eco_green_zoho_migration.Batch.Scope.{ScopeKey, Scope, ScopeOf, compute_scope}
use eco_green_zoho_migration.Batch.Creating.{assert_batch_move}

abbrev pub may_sign : Option Role → Bool
may_sign none = false
may_sign (some approver) = true
may_sign (some admin) = true
may_sign (some operator) = false
may_sign (some (other_role r)) = false

-- The arguments of `approveBatch`. `sod` is the environment's SOD_ENFORCED, `new_id` what
-- `newId('appr')` draws.
pub record Signing : Type 0 where
  pub batch_id : Text
  pub approver : Text
  pub approver_role : Option Role
  pub reason : Option Text
  pub sod : Option Text
  pub new_id : Text

abbrev pub is_sod_enforced : Option Text → Bool
is_sod_enforced sod = not (sod == some (text "false"))

abbrev pub own_scope : Batch → ScopeOf
own_scope b = record {
  run_id = b.run_id;
  branch_code = b.branch_code;
  period = b.period;
  batch_id = some b.id;
}

unfoldable pub insert_approval : Approval → Action (Unit {0})
insert_approval a = do
  taken ← gets λ s. exists (λ b. b.id == a.id) s.approvals
  throw_if taken unique_violation
  modify λ s. record s { approvals = s.approvals ++ a ∷ [] }

abbrev batch_entry : Option Text → Option Role → Batch → Entry → Entry
batch_entry actor role b e = record e {
  actor = actor;
  actor_role = role;
  branch_code = some b.branch_code;
  period = some b.period;
  batch_id = some b.id;
}

-- A scope that has moved is refused, and the refusal is recorded.
unfoldable pub refuse_scope : Context → Signing → Batch → Scope → Action (Unit {0})
refuse_scope ctx g b sc =
    if sc.hash == b.scope_hash
    then pure tt
    else (emit ctx (
          batch_entry (some g.approver) g.approver_role b
            (record (entry none "BATCH.APPROVE_REFUSED_SCOPE_CHANGED" "migration_batches"
              (key g.batch_id)) {
                before = scope b.scope_hash;
                after = scope sc.hash;
                reason = some (text "scope_hash mismatch");
                allowed = false;
              }))
        >> throw (scope_changed g.batch_id))

unfoldable pub new_approval : Context → Signing → Batch → Approval
new_approval ctx g b = record {
  id = g.new_id;
  batch_id = g.batch_id;
  scope_hash = b.scope_hash;
  approver = g.approver;
  approver_role = g.approver_role;
  reason = g.reason;
  invalidated_at = none;
  invalidation_reason = none;
  created_at = ctx.now;
}

abbrev pub or_batch : Option Batch → Batch → Batch
or_batch none b = b
or_batch (some c) b = c

abbrev pub stamped : Context → Signing → Voucher → Voucher
stamped ctx g v = record v {
  approval_id = some g.new_id;
  migration_batch_id = some g.batch_id;
  updated_at = ctx.now;
}

-- From the assertion of the transition on.
unfoldable pub sign : Context → Signing → Batch → Scope → Action Batch
sign ctx g b sc = do
  assert_batch_move b.status BatchState.approved
  insert_approval (new_approval ctx g b)
  updated ← update_batch g.batch_id (λ c. record c {
    status = BatchState.approved;
    approval_id = some g.new_id;
    updated_at = ctx.now;
  })
  for_each sc.vouchers λ v. update_voucher v.id (stamped ctx g)
  emit ctx (
      batch_entry (some g.approver) g.approver_role b
        (record (entry none "BATCH.APPROVE" "migration_batches" (key g.batch_id)) {
          before = batch_status b.status [];
          after = batch_status (or_batch updated b).status (g.new_id ∷ []);
          reason = g.reason;
        }))
  pure (or_batch updated b)

unfoldable pub approve_scope : Context → Signing → Batch → Scope → Action Batch
approve_scope ctx g b sc = refuse_scope ctx g b sc >> sign ctx g b sc

-- From the check of the role on.
unfoldable pub approve_found : (ScopeKey → Text) → Context → Signing → Batch → Action Batch
approve_found digest ctx g b = do
  throw_if (not (may_sign g.approver_role)) (forbidden_role g.approver_role)
  throw_if (is_sod_enforced g.sod && g.approver == b.created_by) (sod_violation (some g.approver))
  sc ← compute_scope digest (own_scope b)
  approve_scope ctx g b sc

unfoldable pub approve_batch : (ScopeKey → Text) → Context → Signing → Action Batch
approve_batch digest ctx g = do
  found ← get_batch g.batch_id
  b ← or_throw found (batch_not_found g.batch_id)
  approve_found digest ctx g b

-- The outcome of `invalidateApprovalIfChanged`.
pub record Drift : Type 0 where
  pub changed : Bool
  pub invalidated : Bool
  pub batch : Batch

abbrev or_text : Option Text → Text → Text
or_text none d = d
or_text (some r) d = r

abbrev invalidate_approval : Context → Option Text → Option Text → Action (Unit {0})
invalidate_approval ctx reason none = pure tt
invalidate_approval ctx reason (some id) = do
  found ← get_approval id
  elim found [
    | none ↦ pure tt
    | some a ↦
        if truthy a.invalidated_at
        then pure tt
        else update_approval id (λ b. record b {
          invalidated_at = some ctx.now;
          invalidation_reason = some (or_text reason (text "SCOPE_CHANGED"));
        })
  ]

abbrev or_worker : Option Text → Option Text
or_worker none = some (text "worker")
or_worker (some a) = some a

-- What follows where the scope has moved and the batch can be invalidated.
unfoldable pub invalidate : Context → Text → Option Text → Batch → Scope → Action Drift
invalidate ctx batch_id reason b sc = do
  invalidate_approval ctx reason (if truthy b.approval_id then b.approval_id else none)
  updated ← update_batch batch_id (λ c. record c {
    status = BatchState.approval_invalidated;
    approval_id = none;
    updated_at = ctx.now;
  })
  affected ← gets λ s.
      filter (λ v. v.migration_batch_id == some batch_id && v.approval_id == b.approval_id)
        s.vouchers
  for_each affected
      λ v. update_voucher v.id λ w. record w { approval_id = none; updated_at = ctx.now }
  emit ctx (
      batch_entry (or_worker ctx.actor) none b
        (record (entry none "BATCH.APPROVAL_INVALIDATED" "migration_batches" (key batch_id)) {
          before = batch_status b.status (b.scope_hash ∷ []);
          after = batch_status (or_batch updated b).status (sc.hash ∷ []);
          reason = some (or_text reason (text "SCOPE_CHANGED"));
        }))
  pure (record { changed = true; invalidated = true; batch = or_batch updated b })

abbrev pub on_drift : Context → Text → Option Text → Batch → Scope → Action Drift
on_drift ctx batch_id reason b sc =
    if sc.hash == b.scope_hash
    then pure (record { changed = false; invalidated = false; batch = b })
    else if not (allows batch_transitions b.status BatchState.approval_invalidated)
    then pure (record { changed = true; invalidated = false; batch = b })
    else invalidate ctx batch_id reason b sc

unfoldable pub invalidate_approval_if_changed :
    (ScopeKey → Text) → Context → Text → Option Text → Action Drift
invalidate_approval_if_changed digest ctx batch_id reason = do
  found ← get_batch batch_id
  b ← or_throw found (batch_not_found batch_id)
  sc ← compute_scope digest (own_scope b)
  on_drift ctx batch_id reason b sc
