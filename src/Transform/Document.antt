-- ===== src/Transform/Document.antt =====
-- `buildPayload` of src/core/transform.js: the document for a voucher, by target module.
use eco_green_zoho_migration.Base.{
  Text, text, Bool, true, false, not, Option, none, some, List, [], ◌∷◌, ◌==◌, text_Eq, truthy,
  or_empty, trim,
}
use eco_green_zoho_migration.Errors.{Result, ok, invalid_target_type, type_error}
use eco_green_zoho_migration.Mapping.{MappingRule}
use eco_green_zoho_migration.Store.Rows.{Voucher, SourceLine}
use eco_green_zoho_migration.Fallible.{steps, ◌>>=◌, ◌>>◌, throw_when, or_err, map_ok}
use eco_green_zoho_migration.Transform.Payload.{
  TargetModule, journal, bill, vendor_credit, credit_note, vendor_payment, customer_payment,
  expense, bank_transfer, module_of, Payload,
}
use eco_green_zoho_migration.Transform.Build.{
  Side, debit_side, credit_side, base_fields, lines_on, select_content_lines, require_rule,
  resolve_key, account_for, or_other, first_line, second_line, of_first, content_item, journal_item,
  non_zero_total, document,
}

-- `requireRule('PARTY', voucher.party_code).target_value`
abbrev pub party_of : List MappingRule → Voucher → Result Text
party_of rules v = require_rule rules v.transaction_date (text "PARTY") v.party_code

-- A document whose lines are the content side of the voucher, for the party `name`d.
abbrev pub content_document :
    (Text → Payload → Payload)
    → Side
    → List MappingRule
    → Voucher
    → List SourceLine
    → Result Payload
content_document with_party side rules v lines = do
  party ← party_of rules v
  content ← select_content_lines side lines
  items ← map_ok (content_item rules v) content
  base ← base_fields v lines []
  ok (with_party party (record (document v.transaction_date base) { line_items = some items }))

abbrev pub payment_document : List MappingRule → Voucher → List SourceLine → Result Payload
payment_document rules v lines = do
  contact ← party_of rules v
  mode ← require_rule rules v.transaction_date (text "PAYMENT_MODE") v.payment_method
  base ← base_fields v lines []
  amount ← non_zero_total v
  ok (record (document v.transaction_date base) {
    contact = some contact;
    amount = some amount;
    payment_mode = some mode;
    reference = some base.reference_number;
  })

-- The accounts of the first debit and of the first credit, or of the first lines there are; with no
-- line at all, a property of `undefined` is read.
abbrev pub both_accounts : List MappingRule → Voucher → List SourceLine → Result (Text × Text)
both_accounts rules v lines = do
  debits ← lines_on debit_side lines
  credits ← lines_on credit_side lines
  d ← or_err (or_other (first_line debits) (first_line lines)) type_error
  debit_account ← account_for rules v.transaction_date d
  c ←
      or_err (or_other (first_line credits) (or_other (second_line lines) (first_line lines)))
        type_error
  credit_account ← account_for rules v.transaction_date c
  ok (debit_account, credit_account)

abbrev pub expense_vendor : List MappingRule → Voucher → Result (Option Text)
expense_vendor rules v = elim (truthy v.party_code) [
  | true ↦ party_of rules v >>= λ p. ok (some p)
  | false ↦ ok none
]

abbrev pub expense_document : List MappingRule → Voucher → List SourceLine → Result Payload
expense_document rules v lines = do
  accounts ← both_accounts rules v lines
  base ← base_fields v lines []
  amount ← non_zero_total v
  vendor ← expense_vendor rules v
  ok (record (document v.transaction_date base) {
    account = some accounts.0;
    paid_through = some accounts.1;
    amount = some amount;
    vendor = vendor;
  })

abbrev pub transfer_document : List MappingRule → Voucher → List SourceLine → Result Payload
transfer_document rules v lines = do
  accounts ← both_accounts rules v lines
  base ← base_fields v lines []
  amount ← non_zero_total v
  ok (record (document v.transaction_date base) {
    to_account = some accounts.0;
    from_account = some accounts.1;
    amount = some amount;
    reference = some base.reference_number;
  })

abbrev has_notes : Option MappingRule → Bool
has_notes none = false
has_notes (some r) = truthy (some (trim (or_empty r.notes)))

-- The warnings of a journal: any other voucher needs a route that documents why it is one.
abbrev pub journal_warnings : List MappingRule → Voucher → Result (List Text)
journal_warnings rules v = elim (v.source_transaction_type == text "JOURNAL") [
  | true ↦ ok []
  | false ↦ do
    route ←
        resolve_key rules v.transaction_date (text "MODULE_ROUTE") (some v.source_transaction_type)
    throw_when (not (has_notes route)) invalid_target_type
    ok (text "JOURNAL_FALLBACK_RULE" ∷ [])
]

abbrev pub journal_document : List MappingRule → Voucher → List SourceLine → Result Payload
journal_document rules v lines = do
  warnings ← journal_warnings rules v
  items ← map_ok (journal_item rules v) lines
  base ← base_fields v lines warnings
  ok (record (document v.transaction_date base) {
    line_items = some items;
    notes = some (or_empty (of_first (λ l. l.narration) lines));
  })

unfoldable pub build_for :
    TargetModule → List MappingRule → Voucher → List SourceLine → Result Payload
build_for bill rules v lines =
    content_document (λ n p. record p { vendor = some n }) debit_side rules v lines
build_for vendor_payment rules v lines = payment_document rules v lines
build_for customer_payment rules v lines = payment_document rules v lines
build_for expense rules v lines = expense_document rules v lines
build_for credit_note rules v lines =
    content_document (λ n p. record p { contact = some n }) debit_side rules v lines
build_for vendor_credit rules v lines =
    content_document (λ n p. record p { contact = some n }) credit_side rules v lines
build_for bank_transfer rules v lines = transfer_document rules v lines
build_for journal rules v lines = journal_document rules v lines

unfoldable pub build_payload : Text → List MappingRule → Voucher → List SourceLine → Result Payload
unfolding steps
build_payload name rules v lines =
    or_err (module_of name) invalid_target_type >>= λ m. build_for m rules v lines
