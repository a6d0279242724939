-- ===== src/Exceptions/Ledger.antt =====
-- What every call on the ledger keeps: its rows differ in their keys and in their ids.
use eco_green_zoho_migration.Base.{
  ℕ, suc, ◌≡◌, ◌≢◌, ◌≤◌, refl, inl, inr, sym, ap, ◌∙◌, Bool, true, false, List, [], ◌∷◌, ◌++◌, All,
  exists, arith, ◌==◌, text_Eq, text_eq_iff, if◌then◌else◌, Option, none, some, Bool-cases,
}
use eco_green_zoho_migration.Store.{
  Store, Table, ExceptionRow, update_rows, append_row, get_exception, update_exception,
  insert_exception, calls,
}
use eco_green_zoho_migration.Store.Logic.{
  Keeps, Keeps-bind, Keeps-then, Keeps-guard, Keeps-pure, Keeps-gets, Keeps-or_throw, Keeps-modify,
  All-update_rows, All-append,
}
use mathlib.Core.Path.{subst}
use eco_green_zoho_migration.Audit.Trail.{emit_only}
use eco_green_zoho_migration.Audit.{Context, Entry, emit}
use eco_green_zoho_migration.Exceptions.{
  raise_found, Condition, new_exception, raise_new, raise_again, raise, Resolution, resolve,
}

-- Rows that agree neither in their id nor in their key.
abbrev pub IsApart : ExceptionRow → ExceptionRow → Type 0
IsApart r q = (r.id ≢ q.id) × (r.dedupe_key ≢ q.dedupe_key)

abbrev pub Separate : List ExceptionRow → Type 0
Separate [] = Unit
Separate (r ∷ rs) = All (IsApart r) rs × Separate rs

-- No two rows have one key or one id, and no id is beyond the last one given.
abbrev pub IsLedger : Table ExceptionRow → Type 0
IsLedger t = Separate t.rows × All (λ r. r.id ≤ t.last) t.rows

abbrev pub HasLedger : Store → Type 0
HasLedger s = IsLedger s.exceptions

abbrev KeepsKeys : (ExceptionRow → ExceptionRow) → Type 0
KeepsKeys f = (r : ExceptionRow) → ((f r).id ≡ r.id) × ((f r).dedupe_key ≡ r.dedupe_key)

IsApart-updated :
    (f : ExceptionRow → ExceptionRow)
    → KeepsKeys f
    → (r q : ExceptionRow) → IsApart r q
    → IsApart r (f q)
IsApart-updated f same r q (i, k) = let (a, b) = same q in (λ e. i (e ∙ a), λ e. k (e ∙ b))

IsApart-head :
    (f : ExceptionRow → ExceptionRow)
    → KeepsKeys f
    → (r : ExceptionRow) (rs : List ExceptionRow) → All (IsApart r) rs
    → All (IsApart (f r)) rs
IsApart-head f same r [] a = tt
IsApart-head f same r (q ∷ rs) ((i, k), a) =
    let (x, y) = same r in ((λ e. i (sym x ∙ e), λ e. k (sym y ∙ e)), IsApart-head f same r rs a)

Separate-update_rows :
    (p : ExceptionRow → Bool) (f : ExceptionRow → ExceptionRow)
    → KeepsKeys f
    → (rows : List ExceptionRow) → Separate rows
    → Separate (update_rows p f rows)
Separate-update_rows p f same [] h = tt
Separate-update_rows p f same (r ∷ rs) (a, h) = (here (p r), Separate-update_rows p f same rs h)
  where
    kept : All (IsApart r) (update_rows p f rs)
    kept = All-update_rows (IsApart r) p f rs (λ q e i. IsApart-updated f same r q i) a

    here : (b : Bool) → All (IsApart (if b then f r else r)) (update_rows p f rs)
    here true = IsApart-head f same r (update_rows p f rs) kept
    here false = kept

Separate-append :
    (rows : List ExceptionRow) (new : ExceptionRow)
    → Separate rows
    → All (λ r. IsApart r new) rows
    → Separate (rows ++ new ∷ [])
Separate-append [] new h a = (tt, tt)
Separate-append (r ∷ rs) new (p, h) (q, a) =
    (All-append (IsApart r) rs (new ∷ []) p (q, tt), Separate-append rs new h a)

new-IsApart :
    (rows : List ExceptionRow) (new : ExceptionRow) (last : ℕ)
    → new.id ≡ suc last
    → All (λ r. r.id ≤ last) rows
    → exists (λ e. e.dedupe_key == new.dedupe_key) rows ≡ false
    → All (λ r. IsApart r new) rows
new-IsApart [] new last i b e = tt
new-IsApart (r ∷ rs) new last i (p, b) e =
    let (to, from) = text_eq_iff r.dedupe_key new.dedupe_key in
    ((λ x. ground arith, λ x. ground arith), new-IsApart rs new last i b (ground arith))

bounds_later :
    (rows : List ExceptionRow) (last : ℕ)
    → All (λ r. r.id ≤ last) rows
    → All (λ r. r.id ≤ suc last) rows
bounds_later [] last b = tt
bounds_later (r ∷ rs) last (p, b) = (omega arith, bounds_later rs last b)

Keeps-update_exception :
    (id : ℕ) (f : ExceptionRow → ExceptionRow)
    → KeepsKeys f
    → Keeps HasLedger (update_exception id f)
unfolding update_exception get_exception
Keeps-update_exception id f same =
    Keeps-then
      (Keeps-modify _ (λ s (h, b). (
        Separate-update_rows _ f same s.exceptions.rows h,
        All-update_rows (λ r. r.id ≤ s.exceptions.last) _ f s.exceptions.rows
            (λ r e l. let (a, k) = same r in ground arith) b,
      )))
      (Keeps-gets _)

inserted :
    (new : ℕ → ExceptionRow) (t : Table ExceptionRow)
    → (new (suc t.last)).id ≡ suc t.last
    → exists (λ e. e.dedupe_key == (new (suc t.last)).dedupe_key) t.rows ≡ false
    → IsLedger t
    → IsLedger (append_row new t)
inserted new t named free (h, b) = (
  Separate-append t.rows (new (suc t.last)) h
      (new-IsApart t.rows (new (suc t.last)) t.last named b free),
  All-append _ t.rows _ (bounds_later t.rows t.last b) (omega (arith, named), tt),
)

Keeps-insert_exception :
    (ctx : Context) (c : Condition) → Keeps HasLedger (insert_exception (new_exception ctx c))
unfolding insert_exception new_exception calls
Keeps-insert_exception ctx c = record {
  kept = λ s h. elim (Bool-cases (exists (λ e. e.dedupe_key == c.dedupe_key) s.exceptions.rows)) [
    | inl taken ↦ subst IsLedger (ground arith) h
    | inr free ↦
        subst IsLedger (ground arith) (inserted (new_exception ctx c) s.exceptions refl free h)
  ];
}

Keeps-emit : (ctx : Context) (e : Entry) → Keeps HasLedger (emit ctx e)
Keeps-emit ctx e = record {
  kept = λ s h. subst IsLedger (sym (ap (λ (t : Store). t.exceptions) (emit_only ctx e s))) h;
}

found-HasLedger :
    (ctx : Context) (c : Condition) (found : Option ExceptionRow)
    → Keeps HasLedger (raise_found ctx c found)
unfolding raise_new raise_again
found-HasLedger ctx c none =
    Keeps-bind (Keeps-insert_exception ctx c) λ row. Keeps-then (Keeps-emit _ _) (Keeps-pure _)
found-HasLedger ctx c (some found) =
    Keeps-bind (Keeps-update_exception found.id _ λ q. (ground arith, ground arith))
      λ updated. Keeps-then (Keeps-emit _ _) (Keeps-pure _)

pub raise-HasLedger : (ctx : Context) (c : Condition) → Keeps HasLedger (raise ctx c)
unfolding raise
raise-HasLedger ctx c =
    Keeps-guard _ _
      λ _. Keeps-guard _ _ λ _. Keeps-bind (Keeps-gets _) λ found. found-HasLedger ctx c found

pub resolve-HasLedger : (ctx : Context) (r : Resolution) → Keeps HasLedger (resolve ctx r)
unfolding resolve get_exception
resolve-HasLedger ctx r = Keeps-bind (Keeps-or_throw _ _) λ status.
    Keeps-bind (Keeps-gets _) λ found. Keeps-bind (Keeps-or_throw _ _) λ existing.
      Keeps-guard _ _ λ _.
        Keeps-bind (Keeps-update_exception r.id _ λ q. (refl, refl))
          λ updated. Keeps-then (Keeps-emit _ _) (Keeps-pure _)

-- The calls that change the ledger.
pub data Call : Type 0 where
  raises : Context → Condition → Call
  resolves : Context → Resolution → Call

unfoldable pub serve : Call → Store → Store
serve (raises ctx c) s = (raise ctx c s).1
serve (resolves ctx r) s = (resolve ctx r s).1

unfoldable pub serve_all : List Call → Store → Store
serve_all [] s = s
serve_all (c ∷ cs) s = serve_all cs (serve c s)
