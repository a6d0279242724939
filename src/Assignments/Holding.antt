-- ===== src/Assignments/Holding.antt =====
-- Putting an assignment on hold and resuming it: the audit trail stands in for the column that the
-- table lacks.
use eco_green_zoho_migration.Assignments.Locking.{check_move_same, set_status_rows}
use eco_green_zoho_migration.Base.{
  ℕ, suc, ◌+◌, ◌≡◌, refl, ap, ◌∙◌, Bool, true, Option, none, some, List, [], ◌∷◌, ◌++◌, All, arith,
  ◌==◌, Text, find, filter, inl, inr, nat_Eq, text_lt, text_eq, Bool-cases,
}
use eco_green_zoho_migration.Errors.{ok, AssignmentState, on_hold}
use eco_green_zoho_migration.Store.{
  Store, Assignment, AuditEvent, calls, update_rows, assignment_row,
}
use eco_green_zoho_migration.Store.Logic.{find-update_rows, find_holds}
use eco_green_zoho_migration.Audit.{Context, emit, event_of}
use eco_green_zoho_migration.Assignments.Rules.{
  is_status_event, newest_first, newest_from, insert_newest, latest_hold, resume_target, check_move,
  AssignmentState_Eq, is_target, assignment_eq_iff,
}
use eco_green_zoho_migration.Assignments.{set_status, moved, coalesce, or_row, status_entry}

-- Every event of the list is older than a time.
abbrev IsOlder : Text → List AuditEvent → Type 0
IsOlder time es = All (λ e. text_lt e.created_at time ≡ true) es

insert_newest_head :
    (e : AuditEvent) (es : List AuditEvent) → IsOlder e.created_at es → insert_newest e es ≡ e ∷ es
unfolding insert_newest
insert_newest_head e [] h = refl
insert_newest_head e (x ∷ xs) (h, hs) = ground arith

insert_newest-IsOlder :
    (time : Text) (e : AuditEvent) (es : List AuditEvent)
    → text_lt e.created_at time ≡ true
    → IsOlder time es
    → IsOlder time (insert_newest e es)
unfolding insert_newest
insert_newest-IsOlder time e [] h k = (h, tt)
insert_newest-IsOlder time e (x ∷ xs) h (k, ks) =
    elim (Bool-cases (text_lt x.created_at e.created_at)) [
      | inl newer ↦ rw newer (h, (k, ks))
      | inr older ↦ rw older (k, insert_newest-IsOlder time e xs h ks)
    ]

newest_from-snoc :
    (sorted es : List AuditEvent) (e : AuditEvent)
    → newest_from sorted (es ++ e ∷ []) ≡ insert_newest e (newest_from sorted es)
unfolding newest_from
newest_from-snoc sorted [] e = refl
newest_from-snoc sorted (x ∷ es) e = newest_from-snoc (insert_newest x sorted) es e

newest_from-IsOlder :
    (time : Text) (sorted es : List AuditEvent)
    → IsOlder time sorted
    → IsOlder time es
    → IsOlder time (newest_from sorted es)
unfolding newest_from
newest_from-IsOlder time sorted [] h k = h
newest_from-IsOlder time sorted (e ∷ es) h (k, ks) =
    newest_from-IsOlder time (insert_newest e sorted) es (insert_newest-IsOlder time e sorted k h)
      ks

-- An event that is newer than all others comes first.
newest_first-snoc :
    (es : List AuditEvent) (e : AuditEvent)
    → IsOlder e.created_at es
    → newest_first (es ++ e ∷ []) ≡ e ∷ newest_first es
unfolding newest_first
newest_first-snoc es e h =
    newest_from-snoc [] es e
    ∙ insert_newest_head e (newest_from [] es) (newest_from-IsOlder e.created_at [] es tt h)

filter-snoc :
    (p : AuditEvent → Bool) (es : List AuditEvent) (e : AuditEvent)
    → p e ≡ true
    → filter p (es ++ e ∷ []) ≡ filter p es ++ e ∷ []
filter-snoc p [] e h = rw h
filter-snoc p (x ∷ es) e h = elim (Bool-cases (p x)) [
  | inl kept ↦ rw kept (ap (λ t. x ∷ t) (filter-snoc p es e h))
  | inr dropped ↦ rw dropped (filter-snoc p es e h)
]

filter-IsOlder :
    (time : Text) (p : AuditEvent → Bool) (es : List AuditEvent)
    → All (λ e. p e ≡ true → text_lt e.created_at time ≡ true) es
    → IsOlder time (filter p es)
filter-IsOlder time p [] h = tt
filter-IsOlder time p (x ∷ es) (h, hs) = elim (Bool-cases (p x)) [
  | inl kept ↦ rw kept (h kept, filter-IsOlder time p es hs)
  | inr dropped ↦ rw dropped (filter-IsOlder time p es hs)
]

latest_hold-cons :
    (e : AuditEvent) (es : List AuditEvent) (before after : Assignment)
    → e.before ≡ assignment_row before
    → e.after ≡ assignment_row after
    → after.status ≡ on_hold
    → latest_hold (e ∷ es) ≡ some before.status
unfolding latest_hold
latest_hold-cons e es before after b a h = rw a (rw b (rw h))

-- The state to resume to is read off the last event, if that put the row on hold.
resume_target_of_hold :
    (id : ℕ) (s t : Store) (e : AuditEvent) (before after : Assignment)
    → t.audit_events.rows ≡ s.audit_events.rows ++ e ∷ []
    → is_status_event id e ≡ true
    → e.before ≡ assignment_row before
    → e.after ≡ assignment_row after
    → after.status ≡ on_hold
    → All
        (λ x. is_status_event id x ≡ true → text_lt x.created_at e.created_at ≡ true)
        s.audit_events.rows
    → resume_target id t ≡ some before.status
unfolding resume_target
resume_target_of_hold id s t e before after rows status b a hold older =
    let es = filter (is_status_event id) s.audit_events.rows in
    let sorted =
      newest_first-snoc es e
        (filter-IsOlder e.created_at (is_status_event id) s.audit_events.rows older) in
    rw rows (
      rw (filter-snoc (is_status_event id) s.audit_events.rows e status)
        (rw sorted (latest_hold-cons e (newest_first es) before after b a hold)))

-- The event of a successful `setStatus`.
abbrev moved_rows : Context → ℕ → AssignmentState → Assignment → Store → List Assignment
moved_rows ctx id status row s =
    update_rows (λ a. a.id == id) (moved ctx status (row.version + 1)) s.assignments.rows

abbrev moved_row : Context → ℕ → AssignmentState → Assignment → Store → Assignment
moved_row ctx id status row s = or_row (find (λ a. a.id == id) (moved_rows ctx id status row s)) row

set_status_event :
    (ctx : Context) (id version : ℕ) (status : AssignmentState) (actor : Option Text) (s t : Store)
    (r row : Assignment)
    → find (λ a. a.id == id) s.assignments.rows ≡ some row
    → set_status ctx id status version actor s ≡ (ok r, t)
    → t.audit_events.rows
      ≡ s.audit_events.rows
        ++ event_of ctx
            (status_entry ctx (coalesce actor ctx.actor) id row (moved_row ctx id status row s))
            (suc s.audit_events.last)
          ∷ []
unfolding set_status emit calls
set_status_event ctx id version status actor s t r row f h =
    ground (arith, check_move_same id row status s)

status_event_lem :
    (ctx : Context) (acting : Option Text) (id n : ℕ) (row after : Assignment)
    → is_status_event id (event_of ctx (status_entry ctx acting id row after) n) ≡ true
unfolding event_of text_eq
status_event_lem ctx acting id n row after = ground arith

-- After a successful `setStatus` to ON_HOLD, the history gives back the state that the row had, if
-- the clock has moved on since the row's earlier status events.
hold_target :
    (ctx : Context) (id version : ℕ) (actor : Option Text) (s t : Store) (r row : Assignment)
    → find (λ a. a.id == id) s.assignments.rows ≡ some row
    → All
        (λ x. is_status_event id x ≡ true → text_lt x.created_at ctx.now ≡ true)
        s.audit_events.rows
    → set_status ctx id on_hold version actor s ≡ (ok r, t)
    → resume_target id t ≡ some row.status
unfolding event_of
hold_target ctx id version actor s t r row f older h =
    let same_id = find_holds (λ (a : Assignment). a.id == id) s.assignments.rows row f in
    let there =
      find-update_rows (λ (a : Assignment). a.id == id) (moved ctx on_hold (row.version + 1))
        s.assignments.rows row f same_id in
    resume_target_of_hold id s t _ row (moved_row ctx id on_hold row s)
      (set_status_event ctx id version on_hold actor s t r row f h)
      (status_event_lem ctx (coalesce actor ctx.actor) id (suc s.audit_events.last) row
        (moved_row ctx id on_hold row s))
      refl refl (rw there) older

is_target_sound :
    (o : Option AssignmentState) (status : AssignmentState)
    → is_target o status ≡ true
    → o ≡ some status
is_target_sound none status h = cc
is_target_sound (some u) status h = ap some ((assignment_eq_iff u status).0 h)

-- Only the target is let through from ON_HOLD.
resume_only_target :
    (ctx : Context) (id version : ℕ) (status : AssignmentState) (actor : Option Text) (s t : Store)
    (r row : Assignment)
    → find (λ a. a.id == id) s.assignments.rows ≡ some row
    → row.status ≡ on_hold
    → set_status ctx id status version actor s ≡ (ok r, t)
    → resume_target id s ≡ some status
unfolding set_status check_move calls
resume_only_target ctx id version status actor s t r row f held h =
    ground (arith, is_target_sound (resume_target id s) status)

-- An assignment that was put on hold can next be moved only back to the state that it had then, if
-- the clock had moved on since the row's earlier status events.
pub resume_restores :
    (ctx ctx' : Context) (id version version' : ℕ) (status : AssignmentState)
    (actor actor' : Option Text) (s t u : Store) (row r r' : Assignment)
    → find (λ a. a.id == id) s.assignments.rows ≡ some row
    → All
        (λ x. is_status_event id x ≡ true → text_lt x.created_at ctx.now ≡ true)
        s.audit_events.rows
    → set_status ctx id on_hold version actor s ≡ (ok r, t)
    → set_status ctx' id status version' actor' t ≡ (ok r', u)
    → status ≡ row.status
resume_restores ctx ctx' id version version' status actor actor' s t u row r r' f older h k =
    let target = hold_target ctx id version actor s t r row f older h in
    let (current, rows) = set_status_rows ctx id version on_hold actor s t r row f h in
    let same_id = find_holds (λ (a : Assignment). a.id == id) s.assignments.rows row f in
    let there : find (λ (a : Assignment). a.id == id) t.assignments.rows
        ≡ some (moved ctx on_hold (row.version + 1) row) =
      rw rows (
        find-update_rows (λ (a : Assignment). a.id == id) (moved ctx on_hold (row.version + 1))
          s.assignments.rows row f same_id) in
    let resumed = resume_only_target ctx' id version' status actor' t u r' _ there refl k in cc
