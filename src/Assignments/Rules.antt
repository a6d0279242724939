-- ===== src/Assignments/Rules.antt =====
-- The rules of src/core/assignments.js: its states, the user directory, and who may make a move.
use eco_green_zoho_migration.Base.{
  ℕ, Text, text, Bool, true, false, not, ◌&&◌, ◌||◌, Option, none, some, List, [], ◌∷◌, filter,
  includes, if◌then◌else◌, leb, nat_eq, nat_Eq, Eq, ◌==◌, text_Eq, option_text_Eq, truthy, text_lt,
  ◌≡◌, ◌↔◌, arith,
}
use eco_green_zoho_migration.Errors.{
  Role, operator, approver, admin, other_role, AssignmentState, unassigned, in_progress,
  ready_for_approval, approved, on_hold, done, illegal_transition, assignment_move, sod_violation,
  validation, user_not_found, Result, ok, err,
}
use eco_green_zoho_migration.Store.{
  Store, Action, throw, gets, or_throw, throw_if, ◌>>=◌, ◌>>◌, Assignment, AuditEvent, Snapshot,
  assignment_row, row_id, EntityId,
}

abbrev assignment_index : AssignmentState → ℕ
assignment_index unassigned = 0
assignment_index AssignmentState.assigned = 1
assignment_index in_progress = 2
assignment_index ready_for_approval = 3
assignment_index approved = 4
assignment_index on_hold = 5
assignment_index done = 6

pub assignment_eq_iff :
    (a b : AssignmentState) → (nat_eq (assignment_index a) (assignment_index b) ≡ true) ↔ (a ≡ b)
assignment_eq_iff a b = ground arith

instance abbrev pub AssignmentState_Eq : Eq AssignmentState
AssignmentState_Eq = record {
  same = λ a b. nat_eq (assignment_index a) (assignment_index b);
  same_iff = assignment_eq_iff;
}

-- `ASSIGNMENT_TRANSITIONS`; the way out of `on_hold` is not a fixed edge.
unfoldable pub assignment_transitions : AssignmentState → List AssignmentState
assignment_transitions unassigned = AssignmentState.assigned ∷ on_hold ∷ []
assignment_transitions AssignmentState.assigned = in_progress ∷ on_hold ∷ []
assignment_transitions in_progress = ready_for_approval ∷ on_hold ∷ []
assignment_transitions ready_for_approval = approved ∷ on_hold ∷ []
assignment_transitions approved = done ∷ on_hold ∷ []
assignment_transitions on_hold = []
assignment_transitions done = []

-- `/^\d{4}-(0[1-9]|1[0-2])$/`
is_digit : ℕ → Bool
is_digit c = leb b'0' c && leb c b'9'

is_month : ℕ → ℕ → Bool
is_month c d =
    nat_eq c b'0' && leb b'1' d && leb d b'9' || nat_eq c b'1' && leb b'0' d && leb d b'2'

unfoldable pub is_period : Text → Bool
unfolding is_digit is_month
is_period (a ∷ b ∷ c ∷ d ∷ dash ∷ m ∷ n ∷ []) =
    is_digit a && is_digit b && is_digit c && is_digit d && nat_eq dash b'-' && is_month m n
is_period _ = false

-- A principal, as `ctx.resolveUser` returns it.
pub record User : Type 0 where
  pub id : Text
  pub role : Role
  pub branches : List Text

abbrev pub Directory : Type 0
Directory = Text → Option User

abbrev pub may_operate : Role → Bool
may_operate operator = true
may_operate admin = true
may_operate approver = false
may_operate (other_role name) = false

abbrev pub may_approve : Role → Bool
may_approve operator = false
may_approve admin = true
may_approve approver = true
may_approve (other_role name) = false

unfoldable pub check_user : User → (Role → Bool) → Text → Action (Unit {0})
check_user user allowed branch_code = do
  throw_if (not (allowed user.role)) validation
  throw_if (not (includes user.branches (text "*")) && not (includes user.branches branch_code))
      validation

-- `validateUserForRole`: the id is given, known, holds one of the roles and covers the branch.
unfoldable pub validate_user_for_role :
    Directory → Option Text → (Role → Bool) → Text → Action (Unit {0})
unfolding check_user
validate_user_for_role directory none allowed branch_code = throw validation
validate_user_for_role directory (some user_id) allowed branch_code = do
  throw_if (not (truthy (some user_id))) validation
  user ← or_throw (directory user_id) (user_not_found (some user_id))
  check_user user allowed branch_code

-- `ORDER BY created_at DESC`; rows of one time stay in the order of their ids.
unfoldable pub insert_newest : AuditEvent → List AuditEvent → List AuditEvent
insert_newest e [] = e ∷ []
insert_newest e (x ∷ xs) =
    let later = x ∷ insert_newest e xs in
    if text_lt x.created_at e.created_at then e ∷ x ∷ xs else later

unfoldable pub newest_from : List AuditEvent → List AuditEvent → List AuditEvent
newest_from sorted [] = sorted
newest_from sorted (e ∷ es) = newest_from (insert_newest e sorted) es

unfoldable pub newest_first : List AuditEvent → List AuditEvent
newest_first es = newest_from [] es

abbrev is_row : ℕ → Option EntityId → Bool
is_row id (some (row_id n)) = n == id
is_row id _ = false

abbrev pub is_status_event : ℕ → AuditEvent → Bool
is_status_event id e =
    e.entity_type == text "branch_period_assignment"
    && is_row id e.entity_id
    && e.action == text "ASSIGNMENT.STATUS"

abbrev snapshot_status : Snapshot → Option AssignmentState
snapshot_status (assignment_row a) = some a.status
snapshot_status _ = none

abbrev is_hold : Option AssignmentState → Bool
is_hold (some on_hold) = true
is_hold _ = false

unfoldable pub latest_hold : List AuditEvent → Option AssignmentState
latest_hold [] = none
latest_hold (e ∷ es) =
    let rest = latest_hold es in
    if is_hold (snapshot_status e.after) then snapshot_status e.before else rest

-- `resumeTargetFromHistory`: the state in which the row last was before it was put on hold.
unfoldable pub resume_target : ℕ → Store → Option AssignmentState
resume_target id s = latest_hold (newest_first (filter (is_status_event id) s.audit_events.rows))

abbrev pub is_target : Option AssignmentState → AssignmentState → Bool
is_target none status = false
is_target (some t) status = t == status

-- The move itself: by the history from `on_hold`, else by the table.
unfoldable pub check_move : ℕ → Assignment → AssignmentState → Action (Unit {0})
check_move id row status = do
  target ← gets (resume_target id)
  throw_if
      (if row.status == on_hold
        then not (is_target target status)
        else not (includes (assignment_transitions row.status) status))
      (illegal_transition (assignment_move row.status status))

abbrev is_approver : Role → Bool
is_approver approver = true
is_approver _ = false

abbrev to_approved : AssignmentState → Bool
to_approved approved = true
to_approved _ = false

-- What `authorizeTransition` asks of a role that is not admin, for a move to another state than
-- `approved`: people move their own assignments.
unfoldable pub own_move : Role → Option Text → Assignment → Result (Unit {0})
own_move operator acting row = if acting == row.assigned_operator then ok tt else err validation
own_move approver acting row = if acting == row.assigned_approver then ok tt else err validation
own_move role acting row = err validation

unfoldable pub approval_move : Role → Option Text → Assignment → Result (Unit {0})
approval_move role acting row =
    if acting == row.assigned_operator
    then err (sod_violation acting)
    else if is_approver role && acting == row.assigned_approver
    then ok tt
    else err validation

-- `authorizeTransition`; a role that is not given is like an unknown one.
unfoldable pub authorize_transition :
    Option Role → Option Text → Assignment → AssignmentState → Result (Unit {0})
unfolding own_move approval_move
authorize_transition (some admin) acting row status = ok tt
authorize_transition none acting row status =
    if to_approved status && acting == row.assigned_operator
    then err (sod_violation acting)
    else err validation
authorize_transition (some role) acting row status =
    if to_approved status then approval_move role acting row else own_move role acting row
