-- ===== src/Batch/Creating.antt =====
-- `createBatch` of src/core/batch.js.
use eco_green_zoho_migration.Base.{
  Text, text, Bool, true, false, not, ◌&&◌, Option, none, some, List, [], ◌∷◌, ◌++◌, filter, find,
  exists, if◌then◌else◌, or_empty, text_lt, nat_eq, ltb, ◌==◌, text_Eq, option_text_Eq,
}
use eco_green_zoho_migration.Errors.{unique_violation, illegal_transition, batch_move}
use eco_green_zoho_migration.States.{BatchState, BatchState_Eq, batch_transitions, allows}
use eco_green_zoho_migration.Store.{
  Action, pure, gets, modify, throw_if, ◌>>=◌, ◌>>◌, Batch, ReconRun, Layer, layer_a, layer_b,
  ReconStatus, pass, fail, pass_with_approved_exceptions, update_batch, key, batch_status, Layer,
  balance_bridge, layer_c,
}
use eco_green_zoho_migration.Audit.{Context, Entry, entry, emit}
use eco_green_zoho_migration.Batch.Scope.{ScopeKey, Scope, compute_scope, sort_by}

-- `assertTransition(BATCH_TRANSITIONS, 'batch', from, to)`
abbrev pub assert_batch_move : BatchState → BatchState → Action (Unit {0})
assert_batch_move from to =
    throw_if (not (allows batch_transitions from to)) (illegal_transition (batch_move from to))

unfoldable pub insert_batch : Batch → Action (Unit {0})
insert_batch b = do
  taken ← gets λ s. exists (λ c. c.id == b.id) s.migration_batches
  throw_if taken unique_violation
  modify λ s. record s { migration_batches = s.migration_batches ++ b ∷ [] }

abbrev is_pass_like : ReconStatus → Bool
is_pass_like pass = true
is_pass_like fail = false
is_pass_like pass_with_approved_exceptions = true

abbrev is_layer : Layer → Layer → Bool
is_layer layer_a layer_a = true
is_layer layer_a layer_b = false
is_layer layer_a layer_c = false
is_layer layer_a balance_bridge = false
is_layer layer_b layer_a = false
is_layer layer_b layer_b = true
is_layer layer_b layer_c = false
is_layer layer_b balance_bridge = false
is_layer layer_c l = false
is_layer balance_bridge l = false

-- The latest run of a layer; of runs of one time, the first.
abbrev later_run : Option ReconRun → ReconRun → Option ReconRun
later_run none r = some r
later_run (some latest) r = if text_lt latest.created_at r.created_at then some r else some latest

abbrev latest_of : Option ReconRun → List ReconRun → Option ReconRun
latest_of latest [] = latest
latest_of latest (r ∷ rs) = latest_of (later_run latest r) rs

unfoldable pub latest_recon_run : Text → Layer → List ReconRun → Option ReconRun
latest_recon_run run_id layer rs =
    latest_of none (filter (λ r. r.run_id == some run_id && is_layer layer r.layer) rs)

-- Why the run is not reconciled, if it is not: the codes of both layers.
abbrev pub recon_reason : Option ReconRun → Option ReconRun → Option Text
recon_reason none b = some (text "NO_LAYER_A_RECON_RUN")
recon_reason (some a) none =
    if is_pass_like a.status
    then some (text "NO_LAYER_B_RECON_RUN")
    else some (text "LAYER_A_STATUS_FAIL")
recon_reason (some a) (some b) =
    if not (is_pass_like a.status)
    then some (text "LAYER_A_STATUS_FAIL")
    else if not (is_pass_like b.status)
    then some (text "LAYER_B_STATUS_FAIL")
    else none

abbrev is_nothing : Option Text → Bool
is_nothing none = true
is_nothing (some t) = false

unfoldable pub is_eligible : Option Text → Scope → Bool
is_eligible reason scope = is_nothing reason && ltb 0 scope.voucher_count

-- A batch that is neither rejected nor invalidated.
abbrev pub is_live_batch : BatchState → Bool
is_live_batch st = not (st == BatchState.rejected) && not (st == BatchState.approval_invalidated)

abbrev last_of {ℓ} : {A : Type ℓ} → List A → Option A
last_of [] = none
last_of (a ∷ []) = some a
last_of (a ∷ b ∷ bs) = last_of (b ∷ bs)

-- The arguments of `createBatch`; `new_id` is what `newId('batch')` draws.
pub record NewBatch : Type 0 where
  pub run_id : Text
  pub branch_code : Text
  pub period : Text
  pub created_by : Text
  pub new_id : Text

abbrev created_entry : NewBatch → Text → Entry → Entry
created_entry n id e = record e {
  actor = some n.created_by;
  branch_code = some n.branch_code;
  period = some n.period;
  batch_id = some id;
}

abbrev reason_texts : Option Text → List Text
reason_texts none = []
reason_texts (some r) = r ∷ []

abbrev or_batch : Option Batch → Batch → Batch
or_batch none b = b
or_batch (some c) b = c

-- A draft of the same scope is looked at again in place.
unfoldable pub reevaluate : Context → NewBatch → Option Text → Bool → Batch → Action Batch
reevaluate ctx n reason eligible same = do
  throw_if
      (eligible && not (allows batch_transitions BatchState.draft BatchState.ready_for_approval))
      (illegal_transition (batch_move BatchState.draft BatchState.ready_for_approval))
  updated ← update_batch same.id (λ b. record b {
    status = if eligible then BatchState.ready_for_approval else b.status;
    totals_reason = reason;
    updated_at = ctx.now;
  })
  emit ctx (
      created_entry n same.id
        (record (entry none "BATCH.CREATE_IDEMPOTENT" "migration_batches" (key same.id)) {
          before = batch_status same.status [];
          after =
              batch_status (or_batch updated same).status
                (elim reason [ none ↦ text "DRAFT_REEVALUATED" ∷ [] | some r ↦ r ∷ [] ]);
        }))
  pure (or_batch updated same)

-- A batch of the scope, or the last batch where nothing is left to batch, is returned as it is.
unfoldable pub keep_existing : Context → NewBatch → Text → Batch → Action Batch
keep_existing ctx n why existing = do
  emit ctx (
      created_entry n existing.id
        (record (entry none "BATCH.CREATE_IDEMPOTENT" "migration_batches" (key existing.id)) {
          after = batch_status existing.status (why ∷ []);
        }))
  pure existing

unfoldable pub new_batch : Context → NewBatch → Scope → Option Text → Batch
new_batch ctx n scope reason = record {
  id = n.new_id;
  branch_code = n.branch_code;
  period = n.period;
  run_id = n.run_id;
  scope_hash = scope.hash;
  mapping_version = or_empty scope.mapping_version;
  transformation_version = or_empty scope.transformation_version;
  cutover_rule_version = or_empty scope.cutover_rule_version;
  voucher_count = scope.voucher_count;
  debit_total = scope.debit_total;
  credit_total = scope.credit_total;
  totals_reason = reason;
  status = BatchState.draft;
  approval_id = none;
  created_by = n.created_by;
  created_at = ctx.now;
  updated_at = ctx.now;
}

-- `if (eligible) { assertTransition(…); finalBatch = await store.update(…) }`
abbrev make_ready : Context → Bool → Batch → Action Batch
make_ready ctx false b = pure b
make_ready ctx true b = do
  assert_batch_move BatchState.draft BatchState.ready_for_approval
  updated ←
      update_batch b.id
        (λ c. record c { status = BatchState.ready_for_approval; updated_at = ctx.now })
  pure (or_batch updated b)

unfoldable pub mint : Context → NewBatch → Scope → Option Text → Bool → Action Batch
mint ctx n scope reason eligible = do
  insert_batch (new_batch ctx n scope reason)
  final ← make_ready ctx eligible (new_batch ctx n scope reason)
  emit ctx (
      created_entry n n.new_id
        (record (entry none "BATCH.CREATE" "migration_batches" (key n.new_id)) {
          after = batch_status final.status (reason_texts reason);
          reason = if eligible then none else reason;
        }))
  pure final

-- What `createBatch` does, by the batch of the same scope and the last live batch if nothing is left.
abbrev pub create_by :
    Context → NewBatch → Scope → Option Text → (same last : Option Batch) → Action Batch
create_by ctx n scope reason (some same) last =
    if same.status == BatchState.draft
    then reevaluate ctx n reason (is_eligible reason scope) same
    else keep_existing ctx n (text "SAME_SCOPE_EXISTS") same
create_by ctx n scope reason none (some existing) =
    keep_existing ctx n (text "NO_UNBATCHED_VOUCHERS") existing
create_by ctx n scope reason none none = mint ctx n scope reason (is_eligible reason scope)

unfoldable pub live_batches : NewBatch → List Batch → List Batch
live_batches n bs =
    sort_by (λ b. b.created_at)
      (filter
        (λ b.
          b.run_id == n.run_id
          && b.branch_code == n.branch_code
          && b.period == n.period
          && is_live_batch b.status)
        bs)

unfoldable pub create_batch : (ScopeKey → Text) → Context → NewBatch → Action Batch
create_batch digest ctx n = do
  scope ← compute_scope digest (record {
    run_id = n.run_id;
    branch_code = n.branch_code;
    period = n.period;
    batch_id = none;
  })
  live ← gets λ s. live_batches n s.migration_batches
  a ← gets λ s. latest_recon_run n.run_id layer_a s.recon_runs
  b ← gets λ s. latest_recon_run n.run_id layer_b s.recon_runs
  create_by ctx n scope (recon_reason a b) (find (λ c. c.scope_hash == scope.hash) live)
      (if nat_eq scope.voucher_count 0 then last_of live else none)
