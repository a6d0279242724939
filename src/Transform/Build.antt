-- ===== src/Transform/Build.antt =====
-- The parts of `buildPayload` of src/core/transform.js. Its `resolve` is `resolveRule` on the rules that it is
-- given. A row of vouchers has no narration, so that `voucher.narration` is never there.
use eco_green_zoho_migration.Base.{
  Text, text, Bool, true, false, not, Option, none, some, List, [], ◌∷◌, ◌==◌, ℤ, pos, int_Eq,
  text_Eq, if◌then◌else◌, truthy, or_empty, ◌||◌,
}
use eco_green_zoho_migration.Errors.{Result, ok, unmapped_entity, invalid_target_type}
use eco_green_zoho_migration.Money.{format_money}
use eco_green_zoho_migration.Mapping.{MappingRule, resolve_rule}
use eco_green_zoho_migration.Store.Rows.{Voucher, SourceLine}
use eco_green_zoho_migration.Fallible.{
  steps, ◌>>=◌, ◌>>◌, throw_when, or_err, filter_ok, sum_of, read_money,
}
use eco_green_zoho_migration.Transform.Payload.{LineItem, Payload}

-- `d !== 0n ? d : c`
abbrev pub first_non_zero : ℤ → ℤ → ℤ
first_non_zero d c = if not (d == pos 0) then d else c

unfoldable pub line_amount : SourceLine → Result Text
unfolding steps
line_amount l = do
  d ← read_money l.debit
  c ← read_money l.credit
  ok (format_money (first_non_zero d c))

-- The credit is read only if the debit is zero.
unfoldable pub non_zero_total : Voucher → Result Text
unfolding steps
non_zero_total v = do
  d ← read_money v.debit_total
  a ← elim (not (d == pos 0)) [ true ↦ ok d | false ↦ read_money v.credit_total ]
  ok (format_money a)

-- What `baseFields` puts into every document.
pub record BaseFields : Type 0 where
  pub location_id : Text
  pub reference_number : Text
  pub source_hash : Text
  pub warnings : List Text

abbrev pub first_line : List SourceLine → Option SourceLine
first_line [] = none
first_line (l ∷ ls) = some l

abbrev pub second_line : List SourceLine → Option SourceLine
second_line [] = none
second_line (l ∷ []) = none
second_line (l ∷ k ∷ ls) = some k

-- `lines?.[0]?.f` of a column `f`
abbrev pub of_first : (SourceLine → Option Text) → List SourceLine → Option Text
of_first f [] = none
of_first f (l ∷ ls) = f l

-- `a || b || ''`
abbrev or_else_empty : Option Text → Option Text → Text
or_else_empty a b = if truthy a then or_empty a else or_empty b

unfoldable pub base_fields : Voucher → List SourceLine → List Text → Result BaseFields
unfolding steps
base_fields v lines warnings =
    throw_when (not (truthy v.zoho_location_id))
      (unmapped_entity (text "LOCATION_ID") (some (text "zoho_location_id")))
    >> ok (record {
      location_id = or_empty v.zoho_location_id;
      reference_number = or_else_empty v.source_document_no (of_first (λ l. l.reference_no) lines);
      source_hash = v.source_transaction_hash;
      warnings = warnings;
    })

unfoldable pub is_non_zero : Text → Result Bool
unfolding steps
is_non_zero t = read_money t >>= λ a. ok (not (a == pos 0))

pub data Side : Type 0 where
  debit_side credit_side : Side

abbrev pub side_amount : Side → SourceLine → Text
side_amount debit_side l = l.debit
side_amount credit_side l = l.credit

abbrev pub other_side : Side → Side
other_side debit_side = credit_side
other_side credit_side = debit_side

-- `debitLines` and `creditLines`
abbrev pub lines_on : Side → List SourceLine → Result (List SourceLine)
lines_on side lines = filter_ok (λ l. is_non_zero (side_amount side l)) lines

abbrev pub is_empty : List SourceLine → Bool
is_empty [] = true
is_empty (l ∷ ls) = false

abbrev pub side_total : Side → List SourceLine → Result ℤ
side_total side lines = sum_of (λ l. read_money (side_amount side l)) lines

unfoldable pub select_content_lines : Side → List SourceLine → Result (List SourceLine)
unfolding steps
select_content_lines side lines = do
  content ← lines_on side lines
  party ← lines_on (other_side side) lines
  throw_when (is_empty content || is_empty party) invalid_target_type
  content_total ← side_total side content
  party_total ← side_total (other_side side) party
  throw_when (not (content_total == party_total)) invalid_target_type
  ok content

-- No rule has a null key.
unfoldable pub resolve_key :
    List MappingRule → Text → Text → Option Text → Result (Option MappingRule)
resolve_key rules on rule_type none = ok none
resolve_key rules on rule_type (some key) =
    resolve_rule rules (record { rule_type = rule_type; source_key = key; on_date = on })

-- `requireRule(ruleType, sourceKey).target_value`
unfoldable pub require_rule : List MappingRule → Text → Text → Option Text → Result Text
unfolding steps resolve_key
require_rule rules on rule_type key = do
  found ← resolve_key rules on rule_type key
  rule ← or_err found (unmapped_entity rule_type key)
  ok rule.target_value

abbrev pub account_for : List MappingRule → Text → SourceLine → Result Text
account_for rules on l = require_rule rules on (text "LEDGER_ACCOUNT") (some l.ledger_code)

-- `a ?? b`
abbrev pub or_other {ℓ} : {A : Type ℓ} → Option A → Option A → Option A
or_other none b = b
or_other (some a) b = some a

unfoldable pub maybe_tax_value : List MappingRule → Text → Option Text → Result (Option Text)
unfolding steps
maybe_tax_value rules on bucket = elim (truthy bucket) [
  | true ↦ require_rule rules on (text "TAX") bucket >>= λ tax. ok (some tax)
  | false ↦ ok none
]

unfoldable pub content_item : List MappingRule → Voucher → SourceLine → Result LineItem
unfolding steps
content_item rules v l = do
  account ← account_for rules v.transaction_date l
  tax ← maybe_tax_value rules v.transaction_date (or_other l.tax_bucket v.tax_bucket)
  amount ← line_amount l
  ok (record { account = account; amount = some amount; debit = none; credit = none; tax = tax })

unfoldable pub journal_item : List MappingRule → Voucher → SourceLine → Result LineItem
unfolding steps
journal_item rules v l = do
  account ← account_for rules v.transaction_date l
  d ← read_money l.debit
  c ← read_money l.credit
  ok (
      if not (d == pos 0)
      then record {
        account = account;
        amount = none;
        debit = some (format_money d);
        credit = none;
        tax = none;
      }
      else record {
        account = account;
        amount = none;
        debit = none;
        credit = some (format_money c);
        tax = none;
      })

-- A document with the fields that all have.
unfoldable pub document : Text → BaseFields → Payload
document on b = record {
  vendor = none;
  contact = none;
  payment_mode = none;
  account = none;
  paid_through = none;
  from_account = none;
  to_account = none;
  amount = none;
  date = on;
  line_items = none;
  notes = none;
  reference = none;
  location_id = b.location_id;
  reference_number = b.reference_number;
  source_hash = b.source_hash;
  warnings = b.warnings;
}
