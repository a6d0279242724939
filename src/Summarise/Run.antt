-- ===== src/Summarise/Run.antt =====
-- `summariseRun` of src/core/summarise.js: the summaries of a run, written once for each key.
use eco_green_zoho_migration.Base.{
  ℕ, Text, text, Bool, not, ◌&&◌, none, some, [], ◌∷◌, ◌++◌, filter, exists, if◌then◌else◌, take,
  truthy, length, ◌==◌, text_Eq,
}
use eco_green_zoho_migration.Errors.{illegal_transition, run_move, run_not_found}
use eco_green_zoho_migration.States.{RunState, RunState_Eq, run_transitions, allows}
use eco_green_zoho_migration.Money.Digits.{print_digits}
use eco_green_zoho_migration.Store.{
  Action, pure, gets, lift, modify, or_throw, throw_if, for_each, ◌>>=◌, ◌>>◌, ExtractionRun,
  StoredSummary, get_run, update_run, key, run_status, values,
}
use eco_green_zoho_migration.Audit.{Context, entry, emit}
use eco_green_zoho_migration.Summarise.{SummaryRow, summarise_lines}

abbrev pub stored_row : Context → (version : Text) → ExtractionRun → SummaryRow → StoredSummary
stored_row ctx version run r = record {
  run_id = run.id;
  branch_code = run.branch_code;
  from_date = run.from_date;
  to_date = run.to_date;
  ledger_code = r.ledger_code;
  voucher_type = r.voucher_type;
  debit = r.debit;
  credit = r.credit;
  txn_count = r.txn_count;
  line_count = r.line_count;
  summary_version = version;
  created_at = ctx.now;
}

-- `uk` is run_id|ledger_code|voucher_type|summary_version: the four columns stand for it.
abbrev pub same_summary : StoredSummary → StoredSummary → Bool
same_summary a b =
    a.run_id == b.run_id
    && a.ledger_code == b.ledger_code
    && a.voucher_type == b.voucher_type
    && a.summary_version == b.summary_version

-- A row whose key is there already is passed over.
unfoldable pub keep_summary : StoredSummary → Action (Unit {0})
keep_summary row = modify λ s. record s {
  summaries =
      if exists (λ x. same_summary x row) s.summaries then s.summaries else s.summaries ++ row ∷ [];
}

-- The number of the summaries that were written or found is returned.
unfoldable pub summarise_run : Context → (run_id version : Text) → Action ℕ
summarise_run ctx run_id version = do
  found ← get_run run_id
  run ← or_throw found (run_not_found run_id)
  lines ← gets λ s. filter (λ l. l.run_id == run_id) s.source_txn_lines
  rows ← lift (summarise_lines lines)
  for_each rows λ r. keep_summary (stored_row ctx version run r)
  throw_if (not (allows run_transitions run.status RunState.summarised))
      (illegal_transition (run_move run.status RunState.summarised))
  update_run run_id (λ r. record r { status = RunState.summarised; updated_at = ctx.now })
  emit ctx (record (entry ctx.actor "SUMMARISE.RUN" "extraction_runs" (key run_id)) {
    actor_role = ctx.actor_role;
    before = run_status run.status;
    after = values (text "SUMMARISED" ∷ version ∷ print_digits (length rows) ∷ []);
    branch_code = some run.branch_code;
    period = if truthy (some run.from_date) then some (take 7 run.from_date) else none;
  })
  pure (length rows)
