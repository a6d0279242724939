-- ===== src/Assignments.antt =====
-- src/core/assignments.js: who works on a branch and period, with segregation of duties and an
-- optimistic lock. `refreshBranchSummary`, an optional derived cache whose errors are swallowed, is
-- left out: it reads and writes no table of the model. A call is one step, as when calls come one
-- after the other; `finish_status` is the part of `setStatus` that follows its read.
pub mod Rules
pub mod Duties
pub mod Approving
pub mod Locking
pub mod Overlapping
pub mod Holding
use eco_green_zoho_migration.Base.{
  ℕ, suc, ◌+◌, Text, text, Bool, true, false, not, ◌&&◌, ◌||◌, Option, none, some, List, [], ◌∷◌,
  filter, includes, exists, if◌then◌else◌, leb, nat_eq, nat_Eq, Eq, ◌==◌, text_Eq, option_text_Eq,
  truthy, trim, text_lt, ◌≡◌, ◌↔◌, arith, length,
}
use eco_green_zoho_migration.Errors.{
  Role, operator, approver, admin, other_role, AssignmentState, unassigned, in_progress,
  ready_for_approval, approved, on_hold, done, illegal_transition, assignment_move, sod_violation,
  validation, user_not_found, assignment_not_found, version_conflict, Result, ok, err,
}
use eco_green_zoho_migration.Store.{
  Store, Action, pure, throw, lift, gets, or_throw, throw_if, ◌>>=◌, ◌>>◌, Assignment, Priority,
  AuditEvent, Snapshot, nothing, assignment_row, row_id, EntityId, get_assignment,
  update_assignment, insert_assignment,
}
use eco_green_zoho_migration.Audit.{Context, Entry, entry, emit}
use Rules.{
  AssignmentState_Eq, Directory, may_operate, may_approve, is_period, validate_user_for_role,
  check_move, authorize_transition,
}

pub record NewAssignment : Type 0 where
  pub branch_code : Text
  pub period : Text
  pub transaction_class : Text
  pub assigned_operator : Option Text
  pub assigned_approver : Option Text
  pub priority : Option Priority  -- `none` stands for a value that is not in PRIORITIES
  pub due_at : Option Text
  pub assigned_by : Option Text

abbrev pub coalesce : Option Text → Option Text → Option Text
coalesce (some a) b = some a
coalesce none b = b

new_row : Context → NewAssignment → Priority → ℕ → Assignment
new_row ctx a priority id = record {
  id = id;
  branch_code = a.branch_code;
  period = a.period;
  transaction_class = a.transaction_class;
  assigned_operator = a.assigned_operator;
  assigned_approver = a.assigned_approver;
  status = AssignmentState.assigned;
  priority_level = priority;
  assigned_at = some ctx.now;
  due_at = a.due_at;
  version = 1;
  assigned_by = coalesce a.assigned_by ctx.actor;
  reassignment_reason = none;
  created_at = ctx.now;
  updated_at = ctx.now;
}

abbrev pub record_entry : Option Text → Option Role → Assignment → Entry → Entry
record_entry actor role row e = record e {
  actor = actor;
  actor_role = role;
  branch_code = some row.branch_code;
  period = some row.period;
}

unfoldable pub create_assignment : Context → Directory → NewAssignment → Action Assignment
unfolding new_row
create_assignment ctx directory a = do
  throw_if (not (truthy (some a.branch_code))) validation
  throw_if (not (is_period a.period)) validation
  priority ← or_throw a.priority validation
  validate_user_for_role directory a.assigned_operator may_operate a.branch_code
  validate_user_for_role directory a.assigned_approver may_approve a.branch_code
  throw_if (a.assigned_operator == a.assigned_approver) (sod_violation a.assigned_operator)
  row ← insert_assignment (new_row ctx a priority)
  emit ctx (
      record_entry (coalesce a.assigned_by ctx.actor) ctx.actor_role row
        (record (entry none "ASSIGNMENT.CREATE" "branch_period_assignment" (row_id row.id)) {
          after = assignment_row row;
        }))
  pure row

-- The arguments of `reassign`: `none` stands for a person who is not given (undefined).
-- A person given as null is not in the model.
pub record Reassignment : Type 0 where
  pub assigned_operator : Option Text
  pub assigned_approver : Option Text
  pub reason : Option Text
  pub expected_version : ℕ

-- Only a person who is given is checked against the directory.
validate_given : Directory → Option Text → (Role → Bool) → Text → Action (Unit {0})
validate_given directory none allowed branch_code = pure tt
validate_given directory (some id) allowed branch_code =
    validate_user_for_role directory (some id) allowed branch_code

abbrev pub has_reason : Option Text → Bool
has_reason none = false
has_reason (some r) = truthy (some (trim r))

abbrev pub reassigned :
    Context → Option Text → Option Text → Option Text → ℕ → Assignment → Assignment
reassigned ctx op app reason version r = record r {
  assigned_operator = op;
  assigned_approver = app;
  reassignment_reason = reason;
  version = version;
  updated_at = ctx.now;
}

abbrev pub or_row {ℓ} : {A : Type ℓ} → Option A → A → A
or_row none a = a
or_row (some b) a = b

unfoldable pub reassign : Context → Directory → ℕ → Reassignment → Action Assignment
unfolding validate_given
reassign ctx directory id r = do
  throw_if (not (has_reason r.reason)) validation
  found ← get_assignment id
  row ← or_throw found (assignment_not_found id)
  throw_if (not (row.version == r.expected_version)) (version_conflict row.version)
  validate_given directory r.assigned_operator may_operate row.branch_code
  validate_given directory r.assigned_approver may_approve row.branch_code
  let next_operator = coalesce r.assigned_operator row.assigned_operator
  let next_approver = coalesce r.assigned_approver row.assigned_approver
  throw_if (next_operator == next_approver) (sod_violation next_operator)
  updated ←
      update_assignment id (reassigned ctx next_operator next_approver r.reason (row.version + 1))
  emit ctx (
      record_entry ctx.actor ctx.actor_role row
        (record (entry none "ASSIGNMENT.REASSIGN" "branch_period_assignment" (row_id id)) {
          before = assignment_row row;
          after = assignment_row (or_row updated row);
          reason = r.reason;
        }))
  pure (or_row updated row)

abbrev pub moved : Context → AssignmentState → ℕ → Assignment → Assignment
moved ctx status version r = record r { status = status; version = version; updated_at = ctx.now }

abbrev pub status_entry : Context → Option Text → ℕ → Assignment → Assignment → Entry
status_entry ctx acting id row updated =
    record_entry acting ctx.actor_role row
      (record (entry none "ASSIGNMENT.STATUS" "branch_period_assignment" (row_id id)) {
        before = assignment_row row;
        after = assignment_row updated;
      })

-- What `setStatus` does once it has read the row: calls that overlap may have written in between.
abbrev pub finish_status :
    Context → ℕ → AssignmentState → (acting : Option Text) → Assignment → Action Assignment
finish_status ctx id status acting row = do
  check_move id row status
  lift (authorize_transition ctx.actor_role acting row status)
  updated ← update_assignment id (moved ctx status (row.version + 1))
  emit ctx (status_entry ctx acting id row (or_row updated row))
  pure (or_row updated row)

-- `setStatus`; `actor` is who acts, by default the `actor` of the context.
unfoldable pub set_status : Context → ℕ → AssignmentState → ℕ → Option Text → Action Assignment
set_status ctx id status expected_version actor = do
  let acting = coalesce actor ctx.actor
  found ← get_assignment id
  row ← or_throw found (assignment_not_found id)
  throw_if (not (row.version == expected_version)) (version_conflict row.version)
  finish_status ctx id status acting row
