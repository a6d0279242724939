-- ===== src/Transform/Effects.antt =====
-- src/books/gl_effects.js: the entries that posting a document makes in the ledgers.
use eco_green_zoho_migration.Base.{
  Text, text, Bool, true, false, not, Option, none, some, List, [], ◌∷◌, ◌++◌, ◌==◌, ℤ, pos, int_Eq,
}
use eco_green_zoho_migration.Errors.{
  Result, ok, err, gl_effects_unbalanced, gl_effects_unknown_module,
}
use eco_green_zoho_migration.Money.{format_money}
use eco_green_zoho_migration.Fallible.{steps, ◌>>=◌, ◌>>◌, throw_when, map_ok, sum_of, read_money}
use eco_green_zoho_migration.Transform.Payload.{
  TargetModule, journal, bill, vendor_credit, credit_note, vendor_payment, customer_payment,
  expense, bank_transfer, module_of, LineItem, Payload,
}

pub record Effect : Type 0 where
  pub account_id : Option Text
  pub debit : Text
  pub credit : Text
  pub proxy : Bool

abbrev pub eff : Option Text → ℤ → ℤ → Effect
eff account debit credit = record {
  account_id = account;
  debit = format_money debit;
  credit = format_money credit;
  proxy = false;
}

-- The leg of a payment that no account of the chart stands behind.
abbrev pub proxy_eff : Option Text → ℤ → ℤ → Effect
proxy_eff account debit credit = record (eff account debit credit) { proxy = true }

-- `x ?? '0.00'`
abbrev pub or_zero : Option Text → Text
or_zero none = text "0.00"
or_zero (some t) = t

unfoldable pub line_amount : LineItem → Result ℤ
line_amount li = read_money (or_zero li.amount)

-- `payload.line_items ?? []`
abbrev pub items_of : Payload → List LineItem
items_of p = elim p.line_items [ none ↦ [] | some items ↦ items ]

-- A value in a template literal.
abbrev shown : Option Text → Text
shown none = text "undefined"
shown (some t) = t

abbrev contact_account : Option Text → Option Text
contact_account c = some (text "CONTACT:" ++ shown c)

abbrev mode_account : Option Text → Option Text
mode_account m = some (text "PAYMENT_MODE:" ++ shown m)

abbrev pub debit_of : Effect → Result ℤ
debit_of e = read_money e.debit

abbrev pub credit_of : Effect → Result ℤ
credit_of e = read_money e.credit

unfoldable pub assert_balanced : List Effect → Result (Unit {0})
unfolding steps
assert_balanced es = do
  debits ← sum_of debit_of es
  credits ← sum_of credit_of es
  throw_when (not (debits == credits)) gl_effects_unbalanced

abbrev pub journal_effect : LineItem → Result Effect
journal_effect li = do
  debit ← read_money (or_zero li.debit)
  credit ← read_money (or_zero li.credit)
  ok (eff (some li.account) debit credit)

abbrev pub debit_line : LineItem → ℤ → Effect
debit_line li a = eff (some li.account) a (pos 0)

abbrev pub credit_line : LineItem → ℤ → Effect
credit_line li a = eff (some li.account) (pos 0) a

-- An entry for each line's amount, and one against them all.
abbrev pub lines_against :
    (LineItem → ℤ → Effect) → (ℤ → Effect) → List LineItem → Result (List Effect)
lines_against entry against items = do
  effects ← map_ok (λ li. line_amount li >>= λ a. ok (entry li a)) items
  total ← sum_of line_amount items
  ok (effects ++ against total ∷ [])

-- One amount, debited to an account and credited to another.
abbrev pub transfer : (ℤ → Effect) → (ℤ → Effect) → Payload → Result (List Effect)
transfer to from p = read_money (or_zero p.amount) >>= λ a. ok (to a ∷ from a ∷ [])

unfoldable pub effects_of : TargetModule → Payload → Result (List Effect)
effects_of journal p = map_ok journal_effect (items_of p)
effects_of bill p =
    lines_against debit_line (λ t. eff (contact_account p.vendor) (pos 0) t) (items_of p)
effects_of vendor_credit p =
    lines_against credit_line (λ t. eff (contact_account p.contact) t (pos 0)) (items_of p)
effects_of credit_note p =
    lines_against debit_line (λ t. eff (contact_account p.contact) (pos 0) t) (items_of p)
effects_of vendor_payment p =
    transfer (λ a. eff (contact_account p.contact) a (pos 0))
      (λ a. proxy_eff (mode_account p.payment_mode) (pos 0) a) p
effects_of customer_payment p =
    transfer (λ a. proxy_eff (mode_account p.payment_mode) a (pos 0))
      (λ a. eff (contact_account p.contact) (pos 0) a) p
effects_of expense p = transfer (λ a. eff p.account a (pos 0)) (λ a. eff p.paid_through (pos 0) a) p
effects_of bank_transfer p =
    transfer (λ a. eff p.to_account a (pos 0)) (λ a. eff p.from_account (pos 0) a) p

unfoldable pub effects_or_unknown : Option TargetModule → Payload → Result (List Effect)
effects_or_unknown none p = err gl_effects_unknown_module
effects_or_unknown (some m) p = effects_of m p >>= λ es. assert_balanced es >> ok es

unfoldable pub gl_effects : Text → Payload → Result (List Effect)
gl_effects m p = effects_or_unknown (module_of m) p
