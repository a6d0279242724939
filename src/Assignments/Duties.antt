-- ===== src/Assignments/Duties.antt =====
-- Segregation of duties: nobody is operator and approver of one assignment, and nobody but an
-- admin approves work that they were assigned to do.
use eco_green_zoho_migration.Base.{
  ℕ, suc, ◌≡◌, ◌≢◌, refl, sym, ap, Bool, false, Option, none, some, List, [], ◌∷◌, All, arith,
  option_text_Eq, ◌==◌, Text,
}
use mathlib.Core.Path.{subst}
use eco_green_zoho_migration.Errors.{Role, AssignmentState}
use eco_green_zoho_migration.Store.{
  Store, Action, Assignment, Table, update_assignment, insert_assignment, get_assignment, calls,
}
use eco_green_zoho_migration.Store.Logic.{
  Keeps, Keeps-bind, Keeps-then, Keeps-guard, Keeps-throw_if, Keeps-pure, Keeps-gets, Keeps-lift,
  Keeps-modify, Keeps-or_throw, All-update_rows, All-append,
}
use eco_green_zoho_migration.Audit.{Context, Entry, emit}
use eco_green_zoho_migration.Audit.Trail.{emit_only}
use eco_green_zoho_migration.Assignments.Rules.{
  Directory, validate_user_for_role, check_user, check_move,
}
use eco_green_zoho_migration.Assignments.{
  NewAssignment, Reassignment, create_assignment, reassign, set_status, validate_given,
}

abbrev HasTwoPeople : Assignment → Type 0
HasTwoPeople a = a.assigned_operator ≢ a.assigned_approver

-- In every assignment of the store, the operator and the approver are different people.
abbrev pub IsSegregated : Store → Type 0
IsSegregated s = All HasTwoPeople s.assignments.rows

Keeps-same {ℓ} :
    {A : Type ℓ} (m : Action A)
    → ((s : Store) → (m s).1.assignments ≡ s.assignments)
    → Keeps IsSegregated m
Keeps-same m h = record {
  kept = λ s p. subst (λ (t : Table Assignment). All HasTwoPeople t.rows) (sym (h s)) p;
}

emit-Keeps : (ctx : Context) (e : Entry) → Keeps IsSegregated (emit ctx e)
emit-Keeps ctx e =
    Keeps-same (emit ctx e) (λ s. ap (λ (t : Store). t.assignments) (emit_only ctx e s))

validate_same :
    (d : Directory) (u : Option Text) (a : Role → Bool) (b : Text) (s : Store)
    → (validate_user_for_role d u a b s).1 ≡ s
unfolding validate_user_for_role check_user calls
validate_same d none a b s = refl
validate_same d (some u) a b s = ground arith

differ : (a b : Option Text) → (a == b) ≡ false → a ≢ b
differ a b h e = ground (arith, option_text_Eq.same_iff a b)

validate-Keeps :
    (d : Directory) (u : Option Text) (a : Role → Bool) (b : Text)
    → Keeps IsSegregated (validate_user_for_role d u a b)
validate-Keeps d u a b =
    Keeps-same _ (λ s. ap (λ (t : Store). t.assignments) (validate_same d u a b s))

insert-Keeps :
    (new : ℕ → Assignment)
    → ((id : ℕ) → HasTwoPeople (new id))
    → Keeps IsSegregated (insert_assignment new)
unfolding insert_assignment
insert-Keeps new h = Keeps-bind (Keeps-gets _) λ taken. Keeps-guard _ _ λ _.
    Keeps-then
      (Keeps-modify _ λ s p.
        All-append HasTwoPeople s.assignments.rows (new (suc s.assignments.last) ∷ []) p (h _, tt))
      (Keeps-gets _)

update-Keeps :
    (id : ℕ) (f : Assignment → Assignment)
    → ((a : Assignment) → HasTwoPeople a → HasTwoPeople (f a))
    → Keeps IsSegregated (update_assignment id f)
unfolding calls
update-Keeps id f h = record {
  kept = λ s p. All-update_rows HasTwoPeople _ f s.assignments.rows (λ r _ q. h r q) p;
}

create_assignment-IsSegregated :
    (ctx : Context) (d : Directory) (a : NewAssignment)
    → Keeps IsSegregated (create_assignment ctx d a)
unfolding create_assignment
create_assignment-IsSegregated ctx d a = Keeps-guard _ _ λ _. Keeps-guard _ _ λ _.
    Keeps-bind (Keeps-or_throw _ _) λ priority. Keeps-then (validate-Keeps _ _ _ _) (
      Keeps-then (validate-Keeps _ _ _ _) (
        Keeps-guard _ _ λ two.
          Keeps-bind (insert-Keeps _ λ id. differ _ _ two)
            λ row. Keeps-then (emit-Keeps _ _) (Keeps-pure _)))

given-Keeps :
    (d : Directory) (u : Option Text) (a : Role → Bool) (b : Text)
    → Keeps IsSegregated (validate_given d u a b)
unfolding validate_given
given-Keeps d none a b = Keeps-pure tt
given-Keeps d (some u) a b = validate-Keeps d (some u) a b

reassign-IsSegregated :
    (ctx : Context) (d : Directory) (id : ℕ) (r : Reassignment)
    → Keeps IsSegregated (reassign ctx d id r)
unfolding reassign get_assignment
reassign-IsSegregated ctx d id r = Keeps-guard _ _ λ _. Keeps-bind (Keeps-gets _) λ found.
    Keeps-bind (Keeps-or_throw _ _) λ row. Keeps-guard _ _ λ _. Keeps-then (given-Keeps _ _ _ _) (
      Keeps-then (given-Keeps _ _ _ _) (
        Keeps-guard _ _ λ two.
          Keeps-bind (update-Keeps _ _ λ a h. differ _ _ two)
            λ updated. Keeps-then (emit-Keeps _ _) (Keeps-pure _)))

set_status-IsSegregated :
    (ctx : Context) (id : ℕ) (status : AssignmentState) (version : ℕ) (actor : Option Text)
    → Keeps IsSegregated (set_status ctx id status version actor)
unfolding set_status get_assignment check_move
set_status-IsSegregated ctx id status version actor = Keeps-bind (Keeps-gets _) λ found.
    Keeps-bind (Keeps-or_throw _ _) λ row. Keeps-guard _ _ λ _.
      Keeps-then (Keeps-bind (Keeps-gets _) λ target. Keeps-throw_if _ _) (
        Keeps-then (Keeps-lift _) (
          Keeps-bind (update-Keeps _ _ λ a h. h)
            λ updated. Keeps-then (emit-Keeps _ _) (Keeps-pure _)))

-- One call from outside, with what its caller supplies.
pub data Request : Type 0 where
  create_request : Context → Directory → NewAssignment → Request
  reassign_request : Context → Directory → ℕ → Reassignment → Request
  status_request : Context → ℕ → AssignmentState → ℕ → Option Text → Request

-- The store after a call, whether it returned or threw.
unfoldable pub serve : Request → Store → Store
serve (create_request ctx d a) s = (create_assignment ctx d a s).1
serve (reassign_request ctx d id r) s = (reassign ctx d id r s).1
serve (status_request ctx id status version actor) s = (set_status ctx id status version actor s).1

unfoldable pub serve_all : List Request → Store → Store
unfolding serve
serve_all [] s = s
serve_all (q ∷ qs) s = serve_all qs (serve q s)

serve-IsSegregated : (q : Request) (s : Store) → IsSegregated s → IsSegregated (serve q s)
unfolding serve
serve-IsSegregated (create_request ctx d a) s = (create_assignment-IsSegregated ctx d a).kept s
serve-IsSegregated (reassign_request ctx d id r) s = (reassign-IsSegregated ctx d id r).kept s
serve-IsSegregated (status_request ctx id status version actor) s =
    (set_status-IsSegregated ctx id status version actor).kept s

-- After any sequence of calls of createAssignment, reassign and setStatus, those that threw
-- included, no assignment has one person as its operator and its approver, if none had before.
pub serve_all-IsSegregated :
    (qs : List Request) (s : Store) → IsSegregated s → IsSegregated (serve_all qs s)
unfolding serve_all
serve_all-IsSegregated [] s p = p
serve_all-IsSegregated (q ∷ qs) s p =
    serve_all-IsSegregated qs (serve q s) (serve-IsSegregated q s p)
