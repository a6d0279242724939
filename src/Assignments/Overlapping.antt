-- ===== src/Assignments/Overlapping.antt =====
-- Two calls of `setStatus` that overlap: the second has read the row before the first writes it.
use eco_green_zoho_migration.Base.{
  ℕ, ◌+◌, ◌≡◌, ◌≢◌, refl, ap, Option, some, Text, arith, ◌==◌, nat_Eq, find, truthy, true,
}
use eco_green_zoho_migration.Errors.{Error, ok, err, AssignmentState, on_hold}
use eco_green_zoho_migration.Store.{Store, Assignment, calls, update_rows, append_row, update_table}
use eco_green_zoho_migration.Store.Logic.{find-update_rows, find_holds}
use eco_green_zoho_migration.Audit.{Context, emit, event_of}
use eco_green_zoho_migration.Assignments.Rules.{
  check_move, authorize_transition, assignment_eq_iff, AssignmentState_Eq,
}
use eco_green_zoho_migration.Assignments.{set_status, finish_status, coalesce, moved, status_entry}
use eco_green_zoho_migration.Assignments.Approving.{set_status_step}
use eco_green_zoho_migration.Assignments.Locking.{
  status_write, write, one_writer_wins, set_status_rows, check_move_same,
}

-- A row that is not on hold moves by the table, whatever is in the audit trail.
check_move_anywhere :
    (id : ℕ) (row : Assignment) (status : AssignmentState) (s t : Store)
    → row.status ≢ on_hold
    → check_move id row status s ≡ (ok tt, s)
    → check_move id row status t ≡ (ok tt, t)
unfolding check_move calls
check_move_anywhere id row status s t free h =
    let (to, from) = assignment_eq_iff row.status on_hold in ground arith

audited :
    (ctx : Context) (id version : ℕ) (status : AssignmentState) (actor : Option Text) (s t : Store)
    (r row : Assignment)
    → find (λ a. a.id == id) s.assignments.rows ≡ some row
    → set_status ctx id status version actor s ≡ (ok r, t)
    → (truthy ctx.correlation_id ≡ true) × (truthy (coalesce actor ctx.actor) ≡ true)
unfolding set_status emit calls
audited ctx id version status actor s t r row f h = (
  ground (arith, check_move_same id row status s),
  ground (arith, check_move_same id row status s),
)

finished :
    (ctx : Context) (id : ℕ) (status : AssignmentState) (acting : Option Text) (t : Store)
    (row now : Assignment)
    → check_move id row status t ≡ (ok tt, t)
    → authorize_transition ctx.actor_role acting row status ≡ ok tt
    → (truthy ctx.correlation_id ≡ true) × (truthy acting ≡ true)
    → find
        (λ a. a.id == id)
        (update_rows (λ a. a.id == id) (moved ctx status (row.version + 1)) t.assignments.rows)
      ≡ some (moved ctx status (row.version + 1) now)
    → (u : Store) × (finish_status ctx id status acting row t
        ≡ (ok (moved ctx status (row.version + 1) now), u))
      × (u.assignments.rows
          ≡ update_rows (λ a. a.id == id) (moved ctx status (row.version + 1)) t.assignments.rows)
unfolding calls emit event_of
finished ctx id status acting t row now move may (signed, named) there = (
  record t {
    assignments = update_table (λ a. a.id == id) (moved ctx status (row.version + 1)) t.assignments;
    audit_events =
        append_row
          (event_of ctx (status_entry ctx acting id row (moved ctx status (row.version + 1) now)))
          t.audit_events;
  },
  rw (move, may, signed, named, there) refl,
  refl,
)

-- Let two calls of `setStatus` name the version of a row that is not on hold, and let each succeed if it
-- runs alone. Where the second is made after the first has ended, it is refused and changes nothing.
-- But where both have read the row before either writes, the second, which goes on after the first has
-- ended, succeeds too: the row then has its state, and the version that follows the one that both
-- named, as if the first call had not been.
pub lock_is_passed_twice :
    (ctx ctx' : Context) (id version : ℕ) (status status' : AssignmentState)
    (actor actor' : Option Text) (s t alone : Store) (row r r' : Assignment)
    → find (λ a. a.id == id) s.assignments.rows ≡ some row
    → row.status ≢ on_hold
    → set_status ctx id status version actor s ≡ (ok r, t)
    → set_status ctx' id status' version actor' s ≡ (ok r', alone)
    → ((e : Error) × (set_status ctx' id status' version actor' t ≡ (err e, t)))
      × ((r'' : Assignment) × (u : Store) × (finish_status ctx' id status'
              (coalesce actor' ctx'.actor)
              row
              t
            ≡ (ok r'', u))
          × (find (λ a. a.id == id) u.assignments.rows ≡ some r'')
          × (r''.status ≡ status')
          × (r''.version ≡ version + 1))
unfolding write
lock_is_passed_twice ctx ctx' id version status status' actor actor' s t alone row r r' f free h k =
    let same = λ (a : Assignment). a.id == id in
    let (current, rows) = set_status_rows ctx id version status actor s t r row f h in
    let (v, move, may) = set_status_step ctx' id status' version actor' s alone r' row f k in
    let first : Assignment = moved ctx status (row.version + 1) row in
    let holds = find_holds same s.assignments.rows row f in
    let there : find same t.assignments.rows ≡ some first =
      rw rows (
        find-update_rows same (moved ctx status (row.version + 1)) s.assignments.rows row f
          holds) in
    let twice =
      find-update_rows same (moved ctx' status' (row.version + 1)) t.assignments.rows first there
        holds in
    let (u, e, after) =
      finished ctx' id status' (coalesce actor' ctx'.actor) t row first
        (check_move_anywhere id row status' s t free move) may
        (audited ctx' id version status' actor' s alone r' row f k) twice in
    (
      one_writer_wins ctx ctx' id version (status_write status actor) (status_write status' actor')
          s t r h,
      (moved ctx' status' (row.version + 1) first, u, e, rw after twice, refl, ap (λ n. n + 1) v),
    )
