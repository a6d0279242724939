-- ===== src/Tests/Ledgers.antt =====
-- The ledger of exceptions.
use eco_green_zoho_migration.Base.{
  text, text_eq, ◌≡◌, ◌≢◌, refl, none, some, [], ◌∷◌, find, ◌==◌, nat_Eq, arith,
}
use eco_green_zoho_migration.Errors.{ok, approver, err, unique_violation}
use eco_green_zoho_migration.Store.{Store, ExceptionRow, resolved, approved_exception, null, calls}
use eco_green_zoho_migration.Audit.{Context, emit}
use eco_green_zoho_migration.Exceptions.{
  Condition, is_category, raise, Resolution, resolve, resolve_status,
}
use eco_green_zoho_migration.Exceptions.Ledger.{raises, resolves, serve_all, HasLedger}
use eco_green_zoho_migration.Exceptions.Unique.{one_row_per_key}
use eco_green_zoho_migration.Exceptions.Raised.{IsOpenFor, raised_is_open}
use eco_green_zoho_migration.Exceptions.Resolving.{IsClosedAs, waived_by_approver}
use eco_green_zoho_migration.Tests.Data.{empty_store, ctx_of}

abbrev approving : Context
approving = ctx_of approver (text "app")

abbrev condition : Condition
condition = record {
  category = text "RATE_LIMIT";
  severity = text "P1";
  message = text "m";
  dedupe_key = text "k1";
  branch_code = none;
  period = none;
  run_id = none;
  file_id = none;
  voucher_id = none;
  batch_id = none;
  financial_impact = text "0.00";
  evidence = null;
}

abbrev closed_row : ExceptionRow
closed_row = record {
  id = 1;
  category = text "RATE_LIMIT";
  severity = text "P1";
  branch_code = none;
  period = none;
  run_id = none;
  file_id = none;
  voucher_id = none;
  batch_id = none;
  financial_impact = text "0.00";
  owner = none;
  status = resolved;
  root_cause = none;
  disposition = none;
  evidence = null;
  message = text "m";
  dedupe_key = text "k1";
  created_at = text "2024-05-01";
  updated_at = text "2024-05-01";
}

abbrev closed_store : Store
closed_store = record empty_store { exceptions = record { rows = closed_row ∷ []; last = 1 } }

abbrev waiver : Resolution
waiver = record {
  id = 1;
  status = text "APPROVED_EXCEPTION";
  root_cause = none;
  disposition = none;
  actor = none;
}

one_row_per_key_example :
    HasLedger (serve_all (raises approving condition ∷ resolves approving waiver ∷ []) closed_store)
    × ((raise approving condition
          (serve_all (raises approving condition ∷ resolves approving waiver ∷ []) closed_store)).0
        ≢ err unique_violation)
one_row_per_key_example =
    one_row_per_key (raises approving condition ∷ resolves approving waiver ∷ []) closed_store
      approving condition ((tt, tt), (omega arith, tt))

raised_is_open_example :
    (row : ExceptionRow) × ((raise approving condition closed_store).0 ≡ ok row)
    × IsOpenFor condition row
unfolding is_category text_eq
raised_is_open_example =
    raised_is_open approving condition closed_store ((tt, tt), (omega arith, tt)) refl refl refl
      refl

abbrev waived_row : ExceptionRow
waived_row = record closed_row {
  status = approved_exception;
  owner = some (text "app");
  updated_at = text "2024-05-02";
}

waived_by_approver_example :
    (found : ExceptionRow) × (find (λ (e : ExceptionRow). e.id == 1) closed_store.exceptions.rows
      ≡ some found)
    × (find
          (λ (e : ExceptionRow). e.id == 1)
          (resolve approving waiver closed_store).1.exceptions.rows
        ≡ some waived_row)
    × IsClosedAs approving.actor_role waiver.status waived_row.status
unfolding resolve resolve_status emit calls text_eq
waived_by_approver_example =
    waived_by_approver approving waiver closed_store (resolve approving waiver closed_store).1
      waived_row refl
