-- ===== src/Transform/Run.antt =====
-- `transformRun` of src/core/transform.js. `human_summary`, which is shown to a reviewer and never read
-- back, is left out of the preview rows.
use eco_green_zoho_migration.Base.{
  Text, text, Bool, not, ◌&&◌, Option, none, some, List, [], ◌∷◌, ◌++◌, map, filter, exists,
  if◌then◌else◌, or_empty, text_lt, trim, ◌==◌, text_Eq, nat_Eq, option_text_Eq,
}
use eco_green_zoho_migration.Errors.{Result, ok, err, unmapped_entity, illegal_transition, run_move}
use eco_green_zoho_migration.States.{RunState, RunState_Eq, run_transitions, allows}
use eco_green_zoho_migration.Money.Digits.{print_digits}
use eco_green_zoho_migration.Mapping.{MappingRule, resolve_rule}
use eco_green_zoho_migration.Store.{
  Action, pure, gets, throw, lift, modify, throw_if, ◌>>=◌, ◌>>◌, Store, Voucher, SourceLine,
  PreviewPayload, Disposition, Disposition_Eq, ExtractionRun, update_voucher, get_run, update_run,
  null, values, key,
}
use eco_green_zoho_migration.Audit.{Context, entry, emit}
use eco_green_zoho_migration.Exceptions.{Condition, raise}
use eco_green_zoho_migration.Transform.Payload.{Payload, LineItem}
use eco_green_zoho_migration.Transform.Document.{build_payload}

abbrev trim_field : Option Text → Option Text
trim_field none = none
trim_field (some t) = some (trim t)

abbrev trim_item : LineItem → LineItem
trim_item i = record {
  account = trim i.account;
  amount = trim_field i.amount;
  debit = trim_field i.debit;
  credit = trim_field i.credit;
  tax = trim_field i.tax;
}

abbrev trim_items : Option (List LineItem) → Option (List LineItem)
trim_items none = none
trim_items (some is) = some (map trim_item is)

-- `sortDeep`: strings are trimmed.
unfoldable pub canonical : Payload → Payload
canonical p = record {
  vendor = trim_field p.vendor;
  contact = trim_field p.contact;
  payment_mode = trim_field p.payment_mode;
  account = trim_field p.account;
  paid_through = trim_field p.paid_through;
  from_account = trim_field p.from_account;
  to_account = trim_field p.to_account;
  amount = trim_field p.amount;
  date = trim p.date;
  line_items = trim_items p.line_items;
  notes = trim_field p.notes;
  reference = trim_field p.reference;
  location_id = trim p.location_id;
  reference_number = trim p.reference_number;
  source_hash = trim p.source_hash;
  warnings = map trim p.warnings;
}

-- What the code takes from the platform: the SHA-256 of the JSON text of a document, and that text.
pub record Encoding : Type 0 where
  pub digest : Payload → Text
  pub stringify : Payload → Text

-- `hashCanonical(payload)`
abbrev pub payload_hash : Encoding → Payload → Text
payload_hash e p = e.digest (canonical p)

abbrev shown_key : Option Text → Text
shown_key none = text "null"
shown_key (some k) = k

-- The exception for a voucher that has no rule of some type for some key.
unfoldable pub unmapped : Voucher → (run_id rule_type source_key message : Text) → Condition
unmapped v run_id rule_type source_key message = record {
  category = text "UNMAPPED_ENTITY";
  severity = text "P1";
  message = message;
  dedupe_key = text "tx:" ++ print_digits v.id ++ text ":" ++ rule_type ++ text ":" ++ source_key;
  branch_code = some v.branch_code;
  period = some v.period;
  run_id = some run_id;
  file_id = none;
  voucher_id = some v.id;
  batch_id = none;
  financial_impact = text "0.00";
  evidence = null;
}

abbrev pub blocked_unmapped : Voucher → Voucher
blocked_unmapped v = record v {
  disposition = Disposition.blocked;
  disposition_reason = some (text "UNMAPPED_ENTITY");
}

abbrev pub block : Context → Voucher → Condition → Action (Unit {0})
block ctx v c = raise ctx c >> update_voucher v.id blocked_unmapped

abbrev pub is_preview_of : Voucher → (version mapping_version : Text) → PreviewPayload → Bool
is_preview_of v version mapping_version p =
    p.voucher_id == v.id
    && p.transformation_version == version
    && p.mapping_version == mapping_version

abbrev pub preview_of :
    Encoding → Context → Voucher → (version : Text) → MappingRule → Payload → PreviewPayload
preview_of e ctx v version route p = record {
  voucher_id = v.id;
  target_module = route.target_value;
  payload_json = e.stringify p;
  payload_hash = payload_hash e p;
  mapping_version = route.mapping_version;
  transformation_version = version;
  warnings = p.warnings;
  created_at = ctx.now;
}

-- A row is inserted unless there is one with its key: voucher, transformation and mapping version.
unfoldable pub keep_preview : (PreviewPayload → Bool) → PreviewPayload → Action (Unit {0})
keep_preview is_same row = modify λ s. record s {
  preview_payloads =
      if exists is_same s.preview_payloads
      then s.preview_payloads
      else s.preview_payloads ++ row ∷ [];
}

abbrev pub stamped : Encoding → (version : Text) → MappingRule → Payload → Voucher → Voucher
stamped e version route p v = record v {
  target_module = some route.target_value;
  target_payload_hash = some (payload_hash e p);
  mapping_version = some route.mapping_version;
  transformation_version = some version;
}

unfoldable pub store_payload :
    Encoding → Context → Voucher → (version : Text) → MappingRule → Payload → Action (Unit {0})
store_payload e ctx v version route p =
    keep_preview (is_preview_of v version route.mapping_version)
      (preview_of e ctx v version route p)
    >> update_voucher v.id (stamped e version route p)

-- The outcome of `buildPayload`: a document, a missing rule, or an error that ends the whole run.
unfoldable pub on_built :
    Encoding
    → Context
    → (run_id version : Text) → Voucher
    → MappingRule
    → Result Payload
    → Action (Unit {0})
on_built e ctx run_id version v route (ok p) = store_payload e ctx v version route p
on_built e ctx run_id version v route (err x) = elim x [
  | unmapped_entity rule_type source_key ↦ block ctx v (
      unmapped v run_id rule_type (shown_key source_key)
        (text "No APPROVED mapping rule for " ++ rule_type ++ text "/" ++ shown_key source_key))
  | other ↦ throw other
]

abbrev pub lines_of : (run_id : Text) → Voucher → Store → List SourceLine
lines_of run_id v s =
    filter (λ l. l.run_id == run_id && l.voucher_id == v.source_record_id) s.source_txn_lines

-- What happens to one voucher. The version of the route that was used is returned.
unfoldable pub transform_routed :
    Encoding
    → Context
    → (run_id version : Text) → List MappingRule
    → Voucher
    → Option MappingRule
    → Action (Option Text)
transform_routed e ctx run_id version rules v none =
    block ctx v (
      unmapped v run_id (text "MODULE_ROUTE") v.source_transaction_type
        (text "No MODULE_ROUTE for " ++ v.source_transaction_type))
    >> pure none
transform_routed e ctx run_id version rules v (some route) = do
  lines ← gets (lines_of run_id v)
  on_built e ctx run_id version v route (build_payload route.target_value rules v lines)
  pure (some route.mapping_version)

unfoldable pub transform_voucher :
    Encoding → Context → (run_id version : Text) → List MappingRule → Voucher → Action (Option Text)
transform_voucher e ctx run_id version rules v = do
  route ← lift (
      resolve_rule rules (record {
        rule_type = text "MODULE_ROUTE";
        source_key = v.source_transaction_type;
        on_date = v.transaction_date;
      }))
  transform_routed e ctx run_id version rules v route

-- The greatest of the versions used: `[...used].sort().at(-1) ?? null`
abbrev greater_of : Option Text → Option Text → Option Text
greater_of a none = a
greater_of none (some w) = some w
greater_of (some u) (some w) = if text_lt u w then some w else some u

unfoldable pub transform_all :
    Encoding
    → Context
    → (run_id version : Text) → List MappingRule
    → Option Text
    → List Voucher
    → Action (Option Text)
transform_all e ctx run_id version rules used [] = pure used
transform_all e ctx run_id version rules used (v ∷ vs) = do
  w ← transform_voucher e ctx run_id version rules v
  transform_all e ctx run_id version rules (greater_of used w) vs

abbrev assert_transformable : Option ExtractionRun → Action (Unit {0})
assert_transformable none = pure tt
assert_transformable (some run) =
    throw_if (not (allows run_transitions run.status RunState.transformed))
      (illegal_transition (run_move run.status RunState.transformed))

-- `ctx.actor ?? 'worker'`
abbrev pub actor_or_worker : Context → Option Text
actor_or_worker ctx = elim ctx.actor [ none ↦ some (text "worker") | some a ↦ some a ]

abbrev branch_of : Option ExtractionRun → Option Text
branch_of none = none
branch_of (some run) = some run.branch_code

unfoldable pub transform_run : Encoding → Context → (run_id version : Text) → Action (Option Text)
transform_run e ctx run_id version = do
  run ← get_run run_id
  rules ← gets λ s. filter (λ r. r.status == text "APPROVED") s.mapping_rules
  vouchers ← gets λ s.
      filter (λ v. v.extraction_run_id == run_id && v.disposition == Disposition.migrate) s.vouchers
  used ← transform_all e ctx run_id version rules none vouchers
  assert_transformable run
  update_run run_id (λ r. record r { status = RunState.transformed; updated_at = ctx.now })
  emit ctx (record (entry (actor_or_worker ctx) "TRANSFORM.RUN" "extraction_run" (key run_id)) {
    after = values (text "TRANSFORMED" ∷ or_empty used ∷ version ∷ []);
    branch_code = branch_of run;
  })
  pure used
