-- ===== src/Exceptions/Apart.antt =====
-- `raise` writes to the exceptions and to the audit trail, and to no other table.
use eco_green_zoho_migration.Base.{◌≡◌, refl, ℕ, Option, none, some, [], text_Eq}
use eco_green_zoho_migration.Store.{
  Store, ExceptionRow, insert_exception, update_exception, get_exception,
}
use eco_green_zoho_migration.Store.Logic.{
  Keeps, Keeps-bind, Keeps-then, Keeps-guard, Keeps-pure, Keeps-gets, Keeps-modify,
}
use eco_green_zoho_migration.Audit.{Context, Entry, emit}
use eco_green_zoho_migration.Exceptions.{Condition, raise, raise_found, raise_new, raise_again}

-- The store without these two tables.
abbrev pub rest_of : Store → Store
rest_of s = record s {
  exceptions = record { rows = []; last = 0 };
  audit_events = record { rows = []; last = 0 };
}

module _ (r : Store) where
  abbrev pub IsRest : Store → Type 0
  IsRest s = rest_of s ≡ r

  pub emit-IsRest : (ctx : Context) (e : Entry) → Keeps IsRest (emit ctx e)
  unfolding emit
  emit-IsRest ctx e =
      Keeps-guard _ _ λ _.
        Keeps-guard _ _ λ _. Keeps-guard _ _ λ _. Keeps-guard _ _ λ _. Keeps-modify _ (λ s h. h)

  insert-IsRest : (new : ℕ → ExceptionRow) → Keeps IsRest (insert_exception new)
  unfolding insert_exception
  insert-IsRest new =
      Keeps-bind (Keeps-gets _)
        λ taken. Keeps-guard _ _ λ _. Keeps-then (Keeps-modify _ (λ s h. h)) (Keeps-gets _)

  update-IsRest : (id : ℕ) (f : ExceptionRow → ExceptionRow) → Keeps IsRest (update_exception id f)
  unfolding update_exception get_exception
  update-IsRest id f = Keeps-then (Keeps-modify _ (λ s h. h)) (Keeps-gets _)

  found-IsRest :
      (ctx : Context) (c : Condition) (found : Option ExceptionRow)
      → Keeps IsRest (raise_found ctx c found)
  unfolding raise_new raise_again
  found-IsRest ctx c none =
      Keeps-bind (insert-IsRest _) λ row. Keeps-then (emit-IsRest _ _) (Keeps-pure _)
  found-IsRest ctx c (some found) =
      Keeps-bind (update-IsRest found.id _) λ updated. Keeps-then (emit-IsRest _ _) (Keeps-pure _)

  raise-IsRest : (ctx : Context) (c : Condition) → Keeps IsRest (raise ctx c)
  unfolding raise
  raise-IsRest ctx c =
      Keeps-guard _ _
        λ _. Keeps-guard _ _ λ _. Keeps-bind (Keeps-gets _) λ found. found-IsRest ctx c found

pub raise-rest : (ctx : Context) (c : Condition) (s : Store) → rest_of (raise ctx c s).1 ≡ rest_of s
raise-rest ctx c s = (raise-IsRest (rest_of s) ctx c).kept s refl
