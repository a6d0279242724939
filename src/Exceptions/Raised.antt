-- ===== src/Exceptions/Raised.antt =====
-- A condition that is raised is open in the ledger afterwards.
use eco_green_zoho_migration.Base.{
  suc, ◌≡◌, ◌≢◌, inl, inr, refl, Text, true, false, List, [], ◌∷◌, All, exists, arith, ◌==◌,
  text_Eq, text_eq_iff, nat_Eq, find, if◌then◌else◌, none, some, Bool-cases, Option-cases, truthy,
}
use eco_green_zoho_migration.Errors.{ok}
use eco_green_zoho_migration.Store.{
  Store, ExceptionRow, get_exception, update_exception, insert_exception, calls,
}
use eco_green_zoho_migration.Store.Logic.{find-update_rows, find_holds}
use eco_green_zoho_migration.Audit.{Context, emit}
use eco_green_zoho_migration.Exceptions.{
  Condition, is_category, is_touchable, new_exception, raise_new, raise_again, raise, touched,
  reopened,
}
use eco_green_zoho_migration.Exceptions.Ledger.{IsApart, Separate, HasLedger}

-- The row that a search for a key finds is found by its id too.
apart_from_found :
    (r q : ExceptionRow) (k : Text) (rs : List ExceptionRow)
    → All (IsApart r) rs
    → find (λ e. e.dedupe_key == k) rs ≡ some q
    → r.id ≢ q.id
apart_from_found r q k [] a h = absurd (ground arith)
apart_from_found r q k (x ∷ rs) ((i, j), a) h = elim (Bool-cases (x.dedupe_key == k)) [
  | inl here ↦ (λ e. i (ground arith))
  | inr later ↦ apart_from_found r q k rs a (ground arith)
]

found_by_id :
    (q : ExceptionRow) (k : Text) (rs : List ExceptionRow)
    → Separate rs
    → find (λ e. e.dedupe_key == k) rs ≡ some q
    → find (λ e. e.id == q.id) rs ≡ some q
found_by_id q k [] h f = ground arith
found_by_id q k (x ∷ rs) (a, h) f = elim (Bool-cases (x.dedupe_key == k)) [
  | inl here ↦ (let e : x ≡ q = ground arith in ground arith)
  | inr later ↦
      let apart = apart_from_found x q k rs a (ground arith) in
      let rest = found_by_id q k rs h (ground arith) in ground arith
]

pub none_exists :
    (k : Text) (rs : List ExceptionRow)
    → find (λ e. e.dedupe_key == k) rs ≡ none
    → exists (λ e. e.dedupe_key == k) rs ≡ false
none_exists k [] h = refl
none_exists k (r ∷ rs) h = ground (arith, none_exists k rs)

abbrev changed : Context → Condition → ExceptionRow → ExceptionRow → ExceptionRow
changed ctx c found r =
    if is_touchable found.status then touched ctx c found r else reopened ctx c found r

same_id :
    (ctx : Context) (c : Condition) (found : ExceptionRow)
    → (changed ctx c found found).id == found.id ≡ true
same_id ctx c found =
    let (to, from) = nat_Eq.same_iff found.id found.id in
    elim (Bool-cases (is_touchable found.status)) [
      | inl t ↦ ground (arith, from refl)
      | inr t ↦ ground (arith, from refl)
    ]

-- What is owed for a condition that was raised.
abbrev pub IsOpenFor : Condition → ExceptionRow → Type 0
IsOpenFor c row = (row.dedupe_key ≡ c.dedupe_key) × (is_touchable row.status ≡ true)

raised_new :
    (ctx : Context) (c : Condition) (s : Store)
    → truthy ctx.correlation_id ≡ true
    → truthy ctx.actor ≡ true
    → find (λ e. e.dedupe_key == c.dedupe_key) s.exceptions.rows ≡ none
    → (row : ExceptionRow) × ((raise_new ctx c s).0 ≡ ok row) × IsOpenFor c row
unfolding raise_new insert_exception new_exception calls emit
raised_new ctx c s k a f =
    let free = none_exists c.dedupe_key s.exceptions.rows f in
    (new_exception ctx c (suc s.exceptions.last), ground arith, (refl, refl))

raised_again :
    (ctx : Context) (c : Condition) (s : Store) (found : ExceptionRow)
    → truthy ctx.correlation_id ≡ true
    → truthy ctx.actor ≡ true
    → find (λ e. e.dedupe_key == c.dedupe_key) s.exceptions.rows ≡ some found
    → HasLedger s
    → (row : ExceptionRow) × ((raise_again ctx c found s).0 ≡ ok row) × IsOpenFor c row
unfolding raise_again update_exception get_exception calls emit
raised_again ctx c s found k a f (h, b) =
    let by_id = found_by_id found c.dedupe_key s.exceptions.rows h f in
    let (to, from) = text_eq_iff found.dedupe_key c.dedupe_key in
    let key = find_holds (λ e. e.dedupe_key == c.dedupe_key) s.exceptions.rows found f in
    let there =
      find-update_rows (λ e. e.id == found.id) (changed ctx c found) s.exceptions.rows found by_id
        (same_id ctx c found) in
    (changed ctx c found found, ground arith, (ground arith, ground arith))

-- Let the ledger hold one row for each key, and a condition of a known category with a key be
-- raised with a correlation id and an actor. Then `raise` succeeds, and the row that it returns has
-- the key and is OPEN or ASSIGNED, whether the key was new, open, or already closed.
pub raised_is_open :
    (ctx : Context) (c : Condition) (s : Store)
    → HasLedger s
    → is_category c.category ≡ true
    → truthy (some c.dedupe_key) ≡ true
    → truthy ctx.correlation_id ≡ true
    → truthy ctx.actor ≡ true
    → (row : ExceptionRow) × ((raise ctx c s).0 ≡ ok row) × IsOpenFor c row
unfolding raise calls
raised_is_open ctx c s h known keyed k a =
    elim (Option-cases (find (λ e. e.dedupe_key == c.dedupe_key) s.exceptions.rows)) [
      | inl free ↦
          let (row, e, is_open) = raised_new ctx c s k a free in (row, ground arith, is_open)
      | inr (found, f) ↦
          let (row, e, is_open) = raised_again ctx c s found k a f h in (row, ground arith, is_open)
    ]
