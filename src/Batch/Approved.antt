-- ===== src/Batch/Approved.antt =====
-- What stands behind an approval.
use eco_green_zoho_migration.Base.{
  ◌≡◌, ◌≢◌, Text, true, false, some, find, arith, ap, Bool-cases, Option-cases, inl, inr, ◌==◌,
  text_Eq, text_eq_iff, ◌&&◌,
}
use eco_green_zoho_migration.Errors.{Result, ok}
use eco_green_zoho_migration.States.{BatchState, BatchState_Eq, batch_transitions, allows}
use eco_green_zoho_migration.Store.{Store, Action, ◌>>=◌, ◌>>◌, Batch, calls}
use eco_green_zoho_migration.Store.Logic.{>>=-eq-ok}
use eco_green_zoho_migration.Audit.{Context, emit}
use eco_green_zoho_migration.Batch.Scope.{ScopeKey, Scope, compute_scope}
use eco_green_zoho_migration.Batch.Approving.{
  Signing, approve_batch, approve_found, approve_scope, own_scope, may_sign, is_sod_enforced,
  refuse_scope, sign,
}

only_ready :
    (st : BatchState)
    → allows batch_transitions st BatchState.approved ≡ true
    → st ≡ BatchState.ready_for_approval
unfolding batch_transitions
only_ready st h = ground arith

then_lem :
    {A : Type 0} (m : Action (Unit {0})) (k : Action A) (s : Store) {r : Result A × Store}
    → (m >> k) s ≡ r
    → (m >>= λ _. k) s ≡ r
unfolding calls
then_lem m k s h = h

module _ (digest : ScopeKey → Text) (ctx : Context) (g : Signing) where
  scope_is_same :
      (b : Batch) (sc : Scope) (s t : Store) (u : Unit {0})
      → refuse_scope ctx g b sc s ≡ (ok u, t)
      → sc.hash ≡ b.scope_hash
  unfolding refuse_scope emit calls
  scope_is_same b sc s t u h =
      let (to, from) = text_eq_iff sc.hash b.scope_hash in
      elim (Bool-cases (sc.hash == b.scope_hash)) [
        | inl same ↦ to same
        | inr moved ↦ absurd (ground arith)
      ]

  was_ready :
      (b : Batch) (sc : Scope) (s t : Store) (r : Batch)
      → sign ctx g b sc s ≡ (ok r, t)
      → b.status ≡ BatchState.ready_for_approval
  unfolding sign calls
  was_ready b sc s t r h = only_ready b.status (ground arith)

  found_first :
      (s t : Store) (r : Batch)
      → approve_batch digest ctx g s ≡ (ok r, t)
      → (b : Batch) × (find (λ c. c.id == g.batch_id) s.migration_batches ≡ some b)
        × (approve_found digest ctx g b s ≡ (ok r, t))
  unfolding approve_batch calls
  found_first s t r h = elim (Option-cases (find (λ c. c.id == g.batch_id) s.migration_batches)) [
    | inl missing ↦ absurd (ground arith)
    | inr (b, found) ↦ (b, found, ground arith)
  ]

  checked :
      (b : Batch) (s t : Store) (r : Batch)
      → approve_found digest ctx g b s ≡ (ok r, t)
      → (may_sign g.approver_role ≡ true)
        × (is_sod_enforced g.sod && g.approver == b.created_by ≡ false)
        × ((compute_scope digest (own_scope b) >>= approve_scope ctx g b) s ≡ (ok r, t))
  unfolding approve_found calls
  checked b s t r h = (ground arith, ground arith, ground arith)

  -- What an approval was given for.
  pub record IsApproval (b : Batch) (s : Store) : Type 0 where
    pub found : find (λ c. c.id == g.batch_id) s.migration_batches ≡ some b
    pub may : may_sign g.approver_role ≡ true
    pub separate : is_sod_enforced g.sod ≡ true → g.approver ≢ b.created_by
    pub ready : b.status ≡ BatchState.ready_for_approval
    pub scope : Scope
    pub computed : (compute_scope digest (own_scope b) s).0 ≡ ok scope
    pub unmoved : scope.hash ≡ b.scope_hash

  -- If `approveBatch` succeeds, then the batch existed and was READY_FOR_APPROVAL, the approver acts
  -- as approver or admin and, unless SOD_ENFORCED is 'false', did not create the batch, and the
  -- scope computed anew from the vouchers has the hash that the batch was created with.
  pub approve_batch-IsApproval :
      (s t : Store) (r : Batch)
      → approve_batch digest ctx g s ≡ (ok r, t)
      → (b : Batch) × IsApproval b s
  unfolding approve_scope
  approve_batch-IsApproval s t r h =
      let (b, found, h1) = found_first s t r h in
      let (may, sod, h2) = checked b s t r h1 in
      let (sc, s1, computed, h3) =
        >>=-eq-ok (compute_scope digest (own_scope b)) (approve_scope ctx g b) s h2 in
      let (u, s2, kept, h4) =
        >>=-eq-ok (refuse_scope ctx g b sc) (λ _. sign ctx g b sc) s1
          (then_lem (refuse_scope ctx g b sc) (sign ctx g b sc) s1 h3) in
      let (to, from) = text_eq_iff g.approver b.created_by in
      (
        b,
        record {
          found = found;
          may = may;
          separate = λ enforced same. ground (arith, from same);
          ready = was_ready b sc s2 t r h4;
          scope = sc;
          computed = ap (λ (x : Result Scope × Store). x.0) computed;
          unmoved = scope_is_same b sc s1 s2 u kept;
        },
      )
