-- ===== src/Tests/Documents.antt =====
-- Documents built of vouchers, and their entries.
use eco_green_zoho_migration.Base.{
  Text, text, text_eq, text_lt, ◌≡◌, ◌≢◌, refl, none, some, List, [], ◌∷◌, ℤ, pos, ◌+ℤ◌, ◌-ℤ◌, All,
  trim,
}
use eco_green_zoho_migration.Errors.{Error, ok, err, gl_effects_unbalanced}
use eco_green_zoho_migration.Money.{parse_money, format_money, print_unsigned}
use eco_green_zoho_migration.Money.Digits.{digits_value, print_digits}
use eco_green_zoho_migration.Mapping.{MappingRule, resolve_rule, is_in_force, is_in_window}
use eco_green_zoho_migration.Store.{SourceLine}
use eco_green_zoho_migration.Fallible.{steps, read_money}
use eco_green_zoho_migration.Transform.Payload.{bill, LineItem, Payload}
use eco_green_zoho_migration.Transform.Effects.{Effect, gl_effects, items_of}
use eco_green_zoho_migration.Transform.Balanced.{Moves, document_total, effects_move_total}
use eco_green_zoho_migration.Transform.Refused.{journal_balances}
use eco_green_zoho_migration.Transform.Build
use eco_green_zoho_migration.Transform.Build.{debit_side, credit_side, side_total}
use eco_green_zoho_migration.Transform.Document.{build_payload, build_for}
use eco_green_zoho_migration.Transform.Whole.{of_bill, posts_whole_voucher}
use eco_green_zoho_migration.Transform.Mapped.{IsMappedItem, items_are_mapped}
use eco_green_zoho_migration.Tests.Data.{voucher}

abbrev rule_of : Text → Text → Text → MappingRule
rule_of kind source target = record {
  rule_type = kind;
  source_key = source;
  status = text "APPROVED";
  effective_from = none;
  effective_to = none;
  target_value = target;
  mapping_version = text "map_v1";
  notes = none;
}

abbrev pub rules : List MappingRule
rules =
    rule_of (text "MODULE_ROUTE") (text "SALE") (text "bill")
    ∷ rule_of (text "PARTY") (text "P1") (text "V9")
    ∷ rule_of (text "LEDGER_ACCOUNT") (text "L1") (text "A1")
    ∷ []

abbrev line : Text → Text → Text → SourceLine
line ledger debit credit = record {
  run_id = text "r1";
  voucher_id = text "v1";
  line_no = 1;
  ledger_code = ledger;
  voucher_type = text "SALE";
  debit = debit;
  credit = credit;
  tax_bucket = none;
  reference_no = none;
  narration = none;
}

-- An expense of 12.50 and what is owed for it.
abbrev pub lines : List SourceLine
lines =
    line (text "L1") (text "12.50") (text "0.00")
    ∷ line (text "L2") (text "0.00") (text "12.50")
    ∷ []

abbrev item : LineItem
item = record {
  account = text "A1";
  amount = some (text "12.50");
  debit = none;
  credit = none;
  tax = none;
}

abbrev pub bill_doc : Payload
bill_doc = record {
  vendor = some (text "V9");
  contact = none;
  payment_mode = none;
  account = none;
  paid_through = none;
  from_account = none;
  to_account = none;
  amount = none;
  date = text "2024-04-03";
  line_items = some (item ∷ []);
  notes = none;
  reference = none;
  location_id = text "L1";
  reference_number = [];
  source_hash = text "h1";
  warnings = [];
}

is_built : build_payload (text "bill") rules voucher lines ≡ ok bill_doc
unfolding build_payload build_for Build.select_content_lines Build.content_item Build.base_fields
    Build.require_rule Build.maybe_tax_value Build.line_amount Build.is_non_zero Build.document
    resolve_rule is_in_force is_in_window text_eq text_lt read_money parse_money format_money
    print_digits trim digits_value print_unsigned steps ◌+ℤ◌ ◌-ℤ◌
is_built = refl

posts_whole_voucher_example :
    (t : ℤ) × (es : List Effect) × (gl_effects (text "bill") bill_doc ≡ ok es)
    × Moves es t t
    × (side_total debit_side lines ≡ ok t)
    × (side_total credit_side lines ≡ ok t)
posts_whole_voucher_example =
    posts_whole_voucher (text "bill") bill debit_side rules voucher lines bill_doc
      (unfold text_eq in refl) of_bill (λ h. absurd cc) is_built

items_are_mapped_example :
    All (IsMappedItem rules voucher.transaction_date lines) (items_of bill_doc)
items_are_mapped_example = items_are_mapped (text "bill") rules voucher lines bill_doc is_built

effects_move_total_example :
    ((t : ℤ)
      → document_total bill bill_doc ≡ ok t
      → (es : List Effect) × (gl_effects (text "bill") bill_doc ≡ ok es) × Moves es t t)
    × ((e : Error)
        → document_total bill bill_doc ≡ err e
        → gl_effects (text "bill") bill_doc ≡ err e)
effects_move_total_example =
    effects_move_total (text "bill") bill bill_doc (unfold text_eq in refl) (λ h. cc)

-- One journal line, of which only the debit is given.
abbrev lopsided : Payload
lopsided = record bill_doc {
  line_items = some (record item { amount = none; debit = some (text "3.00") } ∷ []);
}

journal_balances_example :
    (pos 300 ≡ pos 0
      → (es : List Effect) × (gl_effects (text "journal") lopsided ≡ ok es)
        × Moves es (pos 300) (pos 0))
    × (pos 300 ≢ pos 0 → gl_effects (text "journal") lopsided ≡ err gl_effects_unbalanced)
unfolding steps read_money parse_money trim digits_value ◌+ℤ◌ ◌-ℤ◌ text_eq
journal_balances_example =
    journal_balances (text "journal") lopsided (pos 300) (pos 0) refl refl refl
