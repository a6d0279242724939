-- ===== src/Exceptions.antt =====
-- src/core/exceptions.js: the ledger of exceptions, one row for each `dedupeKey`, which a recurring
-- condition reopens.
mod Evidence
pub mod Ledger
pub mod Raised
pub mod Unique
pub mod Resolving
pub mod Apart
unfoldable pub use Evidence.*
use eco_green_zoho_migration.Base.{
  ℕ, Text, text, Bool, true, false, not, ◌&&◌, ◌||◌, Option, none, some, List, [], ◌∷◌, ◌++◌,
  filter, find, exists, includes, if◌then◌else◌, truthy, ◌==◌, text_Eq,
}
use eco_green_zoho_migration.Errors.{
  Role, approver, admin, operator, other_role, invalid_category, type_error, invalid_resolve_status,
  exception_not_found, forbidden_role,
}
use eco_green_zoho_migration.Store.{
  Action, pure, gets, throw, throw_if, or_throw, ◌>>=◌, ◌>>◌, ExceptionRow, ExceptionState, open_,
  assigned, resolved, approved_exception, rejected, Json, null, scalar, array, object,
  insert_exception, update_exception, get_exception, row_id, exception_row,
}
use eco_green_zoho_migration.Audit.{Context, Entry, entry, emit}

-- The argument of `raise`, with its defaults.
pub record Condition : Type 0 where
  pub category : Text
  pub severity : Text
  pub message : Text
  pub dedupe_key : Text
  pub branch_code : Option Text
  pub period : Option Text
  pub run_id : Option Text
  pub file_id : Option ℕ
  pub voucher_id : Option ℕ
  pub batch_id : Option Text
  pub financial_impact : Text
  pub evidence : Json

unfoldable pub new_exception : Context → Condition → ℕ → ExceptionRow
new_exception ctx c id = record {
  id = id;
  category = c.category;
  severity = c.severity;
  branch_code = c.branch_code;
  period = c.period;
  run_id = c.run_id;
  file_id = c.file_id;
  voucher_id = c.voucher_id;
  batch_id = c.batch_id;
  financial_impact = c.financial_impact;
  owner = none;
  status = open_;
  root_cause = none;
  disposition = none;
  evidence = c.evidence;
  message = c.message;
  dedupe_key = c.dedupe_key;
  created_at = ctx.now;
  updated_at = ctx.now;
}

abbrev pub touched : Context → Condition → ExceptionRow → ExceptionRow → ExceptionRow
touched ctx c found r = record r {
  evidence = merge_evidence found.evidence c.evidence;
  updated_at = ctx.now;
}

abbrev pub reopened : Context → Condition → ExceptionRow → ExceptionRow → ExceptionRow
reopened ctx c found r = record r {
  status = open_;
  evidence = merge_evidence found.evidence c.evidence;
  updated_at = ctx.now;
}

-- `TOUCHABLE_STATUSES`; the other three are `REOPENABLE_STATUSES`.
abbrev pub is_touchable : ExceptionState → Bool
is_touchable open_ = true
is_touchable assigned = true
is_touchable resolved = false
is_touchable approved_exception = false
is_touchable rejected = false

abbrev pub or_row : Option ExceptionRow → ExceptionRow → ExceptionRow
or_row none r = r
or_row (some q) r = q

abbrev pub raised_entry : Context → Condition → ExceptionRow → Entry
raised_entry ctx c row = record (entry ctx.actor "EXCEPTION.RAISED" "exceptions" (row_id row.id)) {
  actor_role = ctx.actor_role;
  after = exception_row row;
  reason = some c.message;
  branch_code = c.branch_code;
  period = c.period;
  batch_id = c.batch_id;
}

abbrev status_text : ExceptionState → Text
status_text open_ = text "OPEN"
status_text assigned = text "ASSIGNED"
status_text resolved = text "RESOLVED"
status_text approved_exception = text "APPROVED_EXCEPTION"
status_text rejected = text "REJECTED"

abbrev pub again_reason : ExceptionRow → Text
again_reason found =
    if is_touchable found.status
    then text "Duplicate raise() on an open exception: evidence merged, no new row"
    else text "Reopened from " ++ status_text found.status ++ text ": condition recurred"

abbrev pub again_base : Context → ExceptionRow → Entry
again_base ctx found =
    if is_touchable found.status
    then entry ctx.actor "EXCEPTION.TOUCHED" "exceptions" (row_id found.id)
    else entry ctx.actor "EXCEPTION.REOPENED" "exceptions" (row_id found.id)

abbrev pub again_entry : Context → ExceptionRow → ExceptionRow → Entry
again_entry ctx found updated = record (again_base ctx found) {
  actor_role = ctx.actor_role;
  before = exception_row found;
  after = exception_row updated;
  reason = some (again_reason found);
  branch_code = found.branch_code;
  period = found.period;
  batch_id = found.batch_id;
}

-- The two branches of `raise`: the key is new, or a row has it.
unfoldable pub raise_new : Context → Condition → Action ExceptionRow
raise_new ctx c = do
  row ← insert_exception (new_exception ctx c)
  emit ctx (raised_entry ctx c row)
  pure row

unfoldable pub raise_again : Context → Condition → ExceptionRow → Action ExceptionRow
raise_again ctx c found = do
  updated ←
      update_exception found.id
        (λ r. if is_touchable found.status then touched ctx c found r else reopened ctx c found r)
  emit ctx (again_entry ctx found (or_row updated found))
  pure (or_row updated found)

abbrev pub raise_found : Context → Condition → Option ExceptionRow → Action ExceptionRow
raise_found ctx c none = raise_new ctx c
raise_found ctx c (some found) = raise_again ctx c found

unfoldable pub raise : Context → Condition → Action ExceptionRow
raise ctx c = do
  throw_if (not (is_category c.category)) (invalid_category c.category)
  throw_if (not (truthy (some c.dedupe_key))) type_error
  found ← gets λ s. find (λ e. e.dedupe_key == c.dedupe_key) s.exceptions.rows
  raise_found ctx c found

-- `RESOLVE_STATUSES`
unfoldable pub resolve_status : Text → Option ExceptionState
resolve_status s =
    if s == text "RESOLVED"
    then some resolved
    else if s == text "APPROVED_EXCEPTION"
    then some approved_exception
    else if s == text "REJECTED"
    then some rejected
    else none

-- `APPROVER_ROLES`
abbrev pub is_approver : Option Role → Bool
is_approver none = false
is_approver (some approver) = true
is_approver (some admin) = true
is_approver (some operator) = false
is_approver (some (other_role r)) = false

abbrev pub is_approval : ExceptionState → Bool
is_approval open_ = false
is_approval assigned = false
is_approval resolved = false
is_approval approved_exception = true
is_approval rejected = false

-- The argument of `resolve`: `none` stands for a field that is not given, or null.
pub record Resolution : Type 0 where
  pub id : ℕ
  pub status : Text
  pub root_cause : Option Text
  pub disposition : Option Text
  pub actor : Option Text

abbrev pub coalesce : Option Text → Option Text → Option Text
coalesce none b = b
coalesce (some a) b = some a

abbrev pub closed :
    Context → Resolution → ExceptionState → ExceptionRow → ExceptionRow → ExceptionRow
closed ctx r status existing e = record e {
  status = status;
  root_cause = coalesce r.root_cause existing.root_cause;
  disposition = coalesce r.disposition existing.disposition;
  owner = coalesce (coalesce r.actor ctx.actor) existing.owner;
  updated_at = ctx.now;
}

unfoldable pub resolve : Context → Resolution → Action ExceptionRow
resolve ctx r = do
  status ← or_throw (resolve_status r.status) (invalid_resolve_status r.status)
  found ← get_exception r.id
  existing ← or_throw found (exception_not_found r.id)
  throw_if (is_approval status && not (is_approver ctx.actor_role)) (forbidden_role ctx.actor_role)
  let acting = coalesce r.actor ctx.actor
  updated ← update_exception r.id (closed ctx r status existing)
  emit ctx (record (entry acting "EXCEPTION.RESOLVED" "exceptions" (row_id r.id)) {
    actor_role = ctx.actor_role;
    before = exception_row existing;
    after = exception_row (or_row updated existing);
    reason = r.root_cause;
    branch_code = existing.branch_code;
    period = existing.period;
    batch_id = existing.batch_id;
  })
  pure (or_row updated existing)
