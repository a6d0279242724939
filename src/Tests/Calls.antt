-- ===== src/Tests/Calls.antt =====
-- Assignments.
use eco_green_zoho_migration.Base.{
  text, text_eq, ◌≡◌, ◌≢◌, refl, none, some, [], ◌∷◌, true, arith, find, ◌+◌, ◌==◌, nat_Eq,
}
use eco_green_zoho_migration.Errors.{
  Error, err, is_ok, approver, operator, admin, ready_for_approval, approved, in_progress, on_hold,
  AssignmentState, ok,
}
use eco_green_zoho_migration.Store.{Store, Assignment, calls}
use eco_green_zoho_migration.Audit.{Context, emit}
use eco_green_zoho_migration.Assignments.Rules.{
  assignment_transitions, check_move, authorize_transition, resume_target, newest_first,
  newest_from, insert_newest, latest_hold,
}
use eco_green_zoho_migration.Assignments.{set_status, coalesce, finish_status}
use eco_green_zoho_migration.Assignments.Duties.{
  status_request, serve_all, IsSegregated, serve_all-IsSegregated,
}
use eco_green_zoho_migration.Assignments.Approving.{set_status_approved, admin_approves_own_work}
use eco_green_zoho_migration.Assignments.Overlapping.{lock_is_passed_twice}
use eco_green_zoho_migration.Assignments.Holding.{resume_restores}
use eco_green_zoho_migration.Tests.Data.{ctx_of, store_with, assignment_in}

abbrev approving : Context
approving = ctx_of approver (text "app")

abbrev operating : Context
operating = ctx_of operator (text "op")

abbrev admins_own : Context
admins_own = ctx_of admin (text "op")

serve_all-IsSegregated_example :
    IsSegregated
      (serve_all (status_request approving 1 approved 3 none ∷ []) (store_with ready_for_approval))
unfolding text_eq
serve_all-IsSegregated_example =
    serve_all-IsSegregated (status_request approving 1 approved 3 none ∷ [])
      (store_with ready_for_approval) ((λ e. ground arith), tt)

abbrev approved_row : Assignment
approved_row = record (assignment_in approved) { version = 4; updated_at = text "2024-05-02" }

set_status_approved_example :
    (approving.actor_role ≡ some approver)
    × (coalesce none approving.actor ≡ (assignment_in ready_for_approval).assigned_approver)
    × (coalesce none approving.actor ≢ (assignment_in ready_for_approval).assigned_operator)
unfolding set_status calls check_move authorize_transition emit assignment_transitions text_eq
set_status_approved_example =
    set_status_approved approving 1 3 none (store_with ready_for_approval)
      (set_status approving 1 approved 3 none (store_with ready_for_approval)).1 approved_row
      (assignment_in ready_for_approval) refl (λ e. ground arith) refl

admin_approves_own_work_example :
    is_ok (set_status admins_own 1 approved 3 none (store_with ready_for_approval)).0 ≡ true
admin_approves_own_work_example =
    admin_approves_own_work admins_own 1 (store_with ready_for_approval)
      (assignment_in ready_for_approval) refl refl refl refl refl refl

abbrev after_approval : Store
after_approval = (set_status approving 1 approved 3 none (store_with ready_for_approval)).1

-- The operator puts on hold what the approver approves.
lock_is_passed_twice_example :
    ((e : Error) × (set_status operating 1 on_hold 3 none after_approval ≡ (err e, after_approval)))
    × ((r'' : Assignment) × (u : Store) × (finish_status operating 1 on_hold
            (coalesce none operating.actor)
            (assignment_in ready_for_approval)
            after_approval
          ≡ (ok r'', u))
        × (find (λ (a : Assignment). a.id == 1) u.assignments.rows ≡ some r'')
        × (r''.status ≡ on_hold)
        × (r''.version ≡ 3 + 1))
unfolding set_status calls check_move authorize_transition emit assignment_transitions text_eq
lock_is_passed_twice_example =
    lock_is_passed_twice approving operating 1 3 approved on_hold none none
      (store_with ready_for_approval) after_approval
      (set_status operating 1 on_hold 3 none (store_with ready_for_approval)).1
      (assignment_in ready_for_approval) approved_row
      (record (assignment_in on_hold) { version = 4; updated_at = text "2024-05-02" }) refl
      (λ e. ground arith) refl refl

abbrev held : Store
held = (set_status operating 1 on_hold 3 none (store_with in_progress)).1

abbrev row_at : AssignmentState → Assignment
row_at st = record (assignment_in st) { updated_at = text "2024-05-02" }

resume_restores_example : in_progress ≡ (assignment_in in_progress).status
unfolding set_status calls check_move authorize_transition emit assignment_transitions resume_target
    newest_first newest_from insert_newest latest_hold text_eq
resume_restores_example =
    resume_restores operating operating 1 3 4 in_progress none none (store_with in_progress) held
      (set_status operating 1 in_progress 4 none held).1 (assignment_in in_progress)
      (record (row_at on_hold) { version = 4 }) (record (row_at in_progress) { version = 5 }) refl
      tt refl refl
