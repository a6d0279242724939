-- ===== src/Assignments/Locking.antt =====
-- The optimistic lock: of two writers with the same version, one after the other, one wins.
use eco_green_zoho_migration.Store.Logic.{find-update_rows, find_holds}
use eco_green_zoho_migration.Base.{
  ℕ, ◌+◌, ◌≡◌, ◌≢◌, refl, Bool, Option, none, some, arith, ◌==◌, Text, find, Option-cases, inl, inr,
  nat_Eq, Bool-cases,
}
use eco_green_zoho_migration.Errors.{
  Error, ok, err, AssignmentState, version_conflict, validation, Role,
}
use eco_green_zoho_migration.Store.{Store, Action, Assignment, calls, update_rows}
use eco_green_zoho_migration.Audit.{Context, emit}
use eco_green_zoho_migration.Assignments.Rules.{
  Directory, check_move, validate_user_for_role, check_user, may_operate, may_approve,
}
use eco_green_zoho_migration.Assignments.{
  Reassignment, reassign, set_status, validate_given, coalesce, has_reason, moved, reassigned,
}

-- A write of an assignment that is there: the two operations that take an expected version.
pub data Write : Type 0 where
  status_write : AssignmentState → Option Text → Write
  person_write : Directory → (operator approver reason : Option Text) → Write

unfoldable pub write : Context → ℕ → ℕ → Write → Action Assignment
write ctx id version (status_write status actor) = set_status ctx id status version actor
write ctx id version (person_write d op app reason) = reassign ctx d id (record {
  assigned_operator = op;
  assigned_approver = app;
  reason = reason;
  expected_version = version;
})

-- A write that finds another version than it expects is refused and changes nothing.
stale_write :
    (ctx : Context) (id version : ℕ) (w : Write) (s : Store) (row : Assignment)
    → find (λ a. a.id == id) s.assignments.rows ≡ some row
    → row.version ≢ version
    → (e : Error) × (write ctx id version w s ≡ (err e, s))
unfolding write set_status reassign calls
stale_write ctx id version (status_write status actor) s row f h =
    (version_conflict row.version, ground arith)
stale_write ctx id version (person_write d op app reason) s row f h =
    elim (Bool-cases (has_reason reason)) [
      | inl given ↦ (version_conflict row.version, ground arith)
      | inr missing ↦ (validation, ground arith)
    ]

validate_given_same :
    (d : Directory) (u : Option Text) (a : Role → Bool) (b : Text) (s : Store)
    → (validate_given d u a b s).1 ≡ s
unfolding validate_given validate_user_for_role check_user calls
validate_given_same d none a b s = refl
validate_given_same d (some u) a b s = ground arith

pub check_move_same :
    (id : ℕ) (row : Assignment) (status : AssignmentState) (s : Store)
    → (check_move id row status s).1 ≡ s
unfolding check_move calls
check_move_same id row status s = ground arith

pub set_status_rows :
    (ctx : Context) (id version : ℕ) (status : AssignmentState) (actor : Option Text) (s t : Store)
    (r row : Assignment)
    → find (λ a. a.id == id) s.assignments.rows ≡ some row
    → set_status ctx id status version actor s ≡ (ok r, t)
    → (row.version ≡ version)
      × (t.assignments.rows
          ≡ update_rows (λ a. a.id == id) (moved ctx status (row.version + 1)) s.assignments.rows)
unfolding set_status emit calls
set_status_rows ctx id version status actor s t r row f h =
    ground (arith, check_move_same id row status s)

abbrev next_people : Context → Reassignment → Assignment → Assignment → Assignment
next_people ctx r row =
    reassigned ctx (coalesce r.assigned_operator row.assigned_operator)
      (coalesce r.assigned_approver row.assigned_approver) r.reason (row.version + 1)

reassign_rows :
    (ctx : Context) (d : Directory) (id : ℕ) (a : Reassignment) (s t : Store) (r row : Assignment)
    → find (λ b. b.id == id) s.assignments.rows ≡ some row
    → reassign ctx d id a s ≡ (ok r, t)
    → (row.version ≡ a.expected_version)
      × (t.assignments.rows
          ≡ update_rows (λ b. b.id == id) (next_people ctx a row) s.assignments.rows)
unfolding reassign emit calls
reassign_rows ctx d id a s t r row f h = ground (
  arith,
  validate_given_same d a.assigned_operator may_operate row.branch_code s,
  validate_given_same d a.assigned_approver may_approve row.branch_code s,
)

-- What an update of the row by its id leaves to be found there.
pub updated_row :
    (id version : ℕ) (f : Assignment → Assignment) (s t : Store) (row : Assignment)
    → find (λ a. a.id == id) s.assignments.rows ≡ some row
    → (f row).id ≡ row.id
    → (f row).version ≡ version
    → t.assignments.rows ≡ update_rows (λ a. a.id == id) f s.assignments.rows
    → (row' : Assignment) × (find (λ a. a.id == id) t.assignments.rows ≡ some row')
      × (row'.version ≡ version)
updated_row id version f s t row h same next rows =
    let holds = find_holds (λ (a : Assignment). a.id == id) s.assignments.rows row h in
    (
      f row,
      rw rows (
          find-update_rows (λ (a : Assignment). a.id == id) f s.assignments.rows row h
            (rw same holds)),
      next,
    )

-- A write that succeeds leaves the row with the next version.
write_version :
    (ctx : Context) (id version : ℕ) (w : Write) (s t : Store) (r row : Assignment)
    → find (λ a. a.id == id) s.assignments.rows ≡ some row
    → write ctx id version w s ≡ (ok r, t)
    → (row' : Assignment) × (find (λ a. a.id == id) t.assignments.rows ≡ some row')
      × (row'.version ≡ version + 1)
unfolding write
write_version ctx id version (status_write status actor) s t r row f h =
    let (current, rows) = set_status_rows ctx id version status actor s t r row f h in
    updated_row id (version + 1) _ s t row f refl (omega arith) rows
write_version ctx id version (person_write d op app reason) s t r row f h =
    let (current, rows) = reassign_rows ctx d id _ s t r row f h in
    updated_row id (version + 1) _ s t row f refl (omega arith) rows

write_missing :
    (ctx : Context) (id version : ℕ) (w : Write) (s t : Store) (r : Assignment)
    → find (λ a. a.id == id) s.assignments.rows ≡ none
    → write ctx id version w s ≢ (ok r, t)
unfolding write set_status reassign calls
write_missing ctx id version (status_write status actor) s t r f h = ground arith
write_missing ctx id version (person_write d op app reason) s t r f h = ground arith

-- Calls one after the other: once a write of an assignment at a version has succeeded, no later write
-- that expects the same version succeeds: it is refused, and changes nothing.
pub one_writer_wins :
    (ctx ctx' : Context) (id version : ℕ) (w w' : Write) (s t : Store) (r : Assignment)
    → write ctx id version w s ≡ (ok r, t)
    → (e : Error) × (write ctx' id version w' t ≡ (err e, t))
one_writer_wins ctx ctx' id version w w' s t r h =
    elim (Option-cases (find (λ (a : Assignment). a.id == id) s.assignments.rows)) [
      | inl missing ↦ absurd (write_missing ctx id version w s t r missing h)
      | inr (row, f) ↦
          let (row', there, next) = write_version ctx id version w s t r row f h in
          stale_write ctx' id version w' t row' there (omega arith)
    ]
