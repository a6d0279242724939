-- ===== src/Exceptions/Unique.antt =====
-- One row for each `dedupeKey`, without a call that runs into the constraint of the table.
use eco_green_zoho_migration.Base.{
  ◌≡◌, ◌≢◌, inl, inr, false, some, List, [], ◌∷◌, find, exists, arith, ◌==◌, text_Eq, Bool-cases,
  Option-cases, truthy,
}
use eco_green_zoho_migration.Errors.{err, unique_violation}
use eco_green_zoho_migration.Store.{
  Store, ExceptionRow, calls, pure, ◌>>◌, insert_exception, update_exception, get_exception,
}
use eco_green_zoho_migration.Audit.{Context, Entry, emit}
use eco_green_zoho_migration.Exceptions.{
  Condition, is_category, raise, raise_new, raise_again, new_exception,
}
use eco_green_zoho_migration.Exceptions.Ledger.{
  Call, raises, resolves, serve, serve_all, HasLedger, raise-HasLedger, resolve-HasLedger,
}
use eco_green_zoho_migration.Exceptions.Raised.{none_exists}

emitted_freely :
    (ctx : Context) (e : Entry) (s : Store) (row : ExceptionRow)
    → ((emit ctx e >> pure row) s).0 ≢ err unique_violation
unfolding emit calls
emitted_freely ctx e s row h = ground arith

new_freely :
    (ctx : Context) (c : Condition) (s : Store)
    → exists (λ e. e.dedupe_key == c.dedupe_key) s.exceptions.rows ≡ false
    → (raise_new ctx c s).0 ≢ err unique_violation
unfolding raise_new insert_exception new_exception calls
new_freely ctx c s free h = emitted_freely ctx _ _ _ (rw free at h)

again_freely :
    (ctx : Context) (c : Condition) (found : ExceptionRow) (s : Store)
    → (raise_again ctx c found s).0 ≢ err unique_violation
unfolding raise_again update_exception get_exception calls
again_freely ctx c found s h = emitted_freely ctx _ _ _ h

raise_freely :
    (ctx : Context) (c : Condition) (s : Store) → (raise ctx c s).0 ≢ err unique_violation
unfolding raise calls
raise_freely ctx c s h = elim (Bool-cases (is_category c.category)) [
  | inr unknown ↦ (let k = rw unknown at h in cc)
  | inl known ↦ elim (Bool-cases (truthy (some c.dedupe_key))) [
    | inr missing ↦ (let k = rw (known, missing) at h in cc)
    | inl keyed ↦
        elim (Option-cases
          (find (λ (e : ExceptionRow). e.dedupe_key == c.dedupe_key) s.exceptions.rows)) [
            | inl free ↦
                new_freely ctx c s (none_exists c.dedupe_key s.exceptions.rows free)
                  (rw (known, keyed, free) at h)
            | inr (found, f) ↦ again_freely ctx c found s (rw (known, keyed, f) at h)
          ]
  ]
]

served : (cs : List Call) (s : Store) → HasLedger s → HasLedger (serve_all cs s)
unfolding serve serve_all
served [] s h = h
served (raises ctx c ∷ cs) s h = served cs _ ((raise-HasLedger ctx c).kept s h)
served (resolves ctx r ∷ cs) s h = served cs _ ((resolve-HasLedger ctx r).kept s h)

-- Let no two rows of the ledger have one dedupe key or one id. Then this holds after any calls of
-- `raise` and `resolve`, those that threw included; and whatever is raised then, with a new key or
-- one that a row has, is never refused by the constraint of the table for a key that is taken.
pub one_row_per_key :
    (cs : List Call) (s : Store) (ctx : Context) (c : Condition)
    → HasLedger s
    → HasLedger (serve_all cs s) × ((raise ctx c (serve_all cs s)).0 ≢ err unique_violation)
one_row_per_key cs s ctx c h = (served cs s h, raise_freely ctx c (serve_all cs s))
