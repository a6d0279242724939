-- ===== src/Assignments/Approving.antt =====
-- Who may approve an assignment.
use eco_green_zoho_migration.Base.{
  ℕ, ◌≡◌, ◌≢◌, true, Option, none, some, arith, ◌==◌, Text, find, option_text_Eq,
  option_text_eq_iff, nat_Eq, truthy,
}
use eco_green_zoho_migration.Errors.{
  ok, Role, admin, approver, AssignmentState, approved, ready_for_approval, is_ok,
}
use eco_green_zoho_migration.Store.{Store, Assignment, calls}
use eco_green_zoho_migration.Audit.{Context, emit}
use eco_green_zoho_migration.Assignments.Rules.{
  check_move, authorize_transition, assignment_transitions,
}
use eco_green_zoho_migration.Assignments.{set_status, coalesce}

-- What `authorizeTransition` lets through as an approval, if not from an admin.
authorized_approval :
    (role : Option Role) (acting : Option Text) (row : Assignment)
    → role ≢ some admin
    → authorize_transition role acting row approved ≡ ok tt
    → (role ≡ some approver) × (acting ≡ row.assigned_approver) × (acting ≢ row.assigned_operator)
unfolding authorize_transition
authorized_approval role acting row h e = ground (
  arith,
  option_text_eq_iff acting row.assigned_operator,
  option_text_eq_iff acting row.assigned_approver,
)

-- What a successful `setStatus` has checked.
pub set_status_step :
    (ctx : Context) (id : ℕ) (status : AssignmentState) (version : ℕ) (actor : Option Text)
    (s t : Store) (r row : Assignment)
    → find (λ a. a.id == id) s.assignments.rows ≡ some row
    → set_status ctx id status version actor s ≡ (ok r, t)
    → (row.version ≡ version)
      × (check_move id row status s ≡ (ok tt, s))
      × (authorize_transition ctx.actor_role (coalesce actor ctx.actor) row status ≡ ok tt)
unfolding set_status calls check_move
set_status_step ctx id status version actor s t r row f e = ground arith

-- A successful `setStatus` to `approved` by anybody but an admin was made by an approver, who is the
-- row's assigned approver and not its assigned operator.
pub set_status_approved :
    (ctx : Context) (id version : ℕ) (actor : Option Text) (s t : Store) (r row : Assignment)
    → find (λ a. a.id == id) s.assignments.rows ≡ some row
    → ctx.actor_role ≢ some admin
    → set_status ctx id approved version actor s ≡ (ok r, t)
    → (ctx.actor_role ≡ some approver)
      × (coalesce actor ctx.actor ≡ row.assigned_approver)
      × (coalesce actor ctx.actor ≢ row.assigned_operator)
set_status_approved ctx id version actor s t r row f h e =
    authorized_approval ctx.actor_role (coalesce actor ctx.actor) row h
      (set_status_step ctx id approved version actor s t r row f e).2

-- An admin who is the assigned operator of a row that is ready for approval can approve it: the
-- call succeeds, if it has a correlation id and the row's version.
pub admin_approves_own_work :
    (ctx : Context) (id : ℕ) (s : Store) (row : Assignment)
    → find (λ a. a.id == id) s.assignments.rows ≡ some row
    → row.status ≡ ready_for_approval
    → ctx.actor_role ≡ some admin
    → ctx.actor ≡ row.assigned_operator
    → truthy ctx.actor ≡ true
    → truthy ctx.correlation_id ≡ true
    → is_ok (set_status ctx id approved row.version none s).0 ≡ true
unfolding set_status calls check_move authorize_transition emit assignment_transitions
admin_approves_own_work ctx id s row f st role own actor corr = ground arith
