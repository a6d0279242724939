-- ===== src/Transform/Itemless.antt =====
-- The documents that have one amount and no lines.
use eco_green_zoho_migration.Base.{text, ◌≡◌, ap, List, [], int_Eq, text_Eq}
use eco_green_zoho_migration.Errors.{ok}
use eco_green_zoho_migration.Mapping.{MappingRule}
use eco_green_zoho_migration.Store.Rows.{Voucher, SourceLine}
use eco_green_zoho_migration.Fallible.Sums.{bind-eq-ok, ok-injective}
use eco_green_zoho_migration.Transform.Payload.{Payload}
use eco_green_zoho_migration.Transform.Effects.{items_of}
use eco_green_zoho_migration.Transform.Build.{require_rule, base_fields, document, non_zero_total}
use eco_green_zoho_migration.Transform.Document.{
  party_of, both_accounts, payment_document, expense_document, transfer_document, expense_vendor,
}

pub payment_document-items :
    (rules : List MappingRule) (v : Voucher) (lines : List SourceLine) (p : Payload)
    → payment_document rules v lines ≡ ok p
    → [] ≡ items_of p
unfolding document
payment_document-items rules v lines p h =
    let (contact, a, h1) = bind-eq-ok (party_of rules v) _ h in
    let (mode, b, h2) =
      bind-eq-ok (require_rule rules v.transaction_date (text "PAYMENT_MODE") v.payment_method) _
        h1 in
    let (base, c, h3) = bind-eq-ok (base_fields v lines []) _ h2 in
    let (amount, d, h4) = bind-eq-ok (non_zero_total v) _ h3 in ap items_of (ok-injective h4)

pub expense_document-items :
    (rules : List MappingRule) (v : Voucher) (lines : List SourceLine) (p : Payload)
    → expense_document rules v lines ≡ ok p
    → [] ≡ items_of p
unfolding document
expense_document-items rules v lines p h =
    let (accounts, a, h1) = bind-eq-ok (both_accounts rules v lines) _ h in
    let (base, b, h2) = bind-eq-ok (base_fields v lines []) _ h1 in
    let (amount, c, h3) = bind-eq-ok (non_zero_total v) _ h2 in
    let (vendor, d, h4) = bind-eq-ok (expense_vendor rules v) _ h3 in ap items_of (ok-injective h4)

pub transfer_document-items :
    (rules : List MappingRule) (v : Voucher) (lines : List SourceLine) (p : Payload)
    → transfer_document rules v lines ≡ ok p
    → [] ≡ items_of p
unfolding document
transfer_document-items rules v lines p h =
    let (accounts, a, h1) = bind-eq-ok (both_accounts rules v lines) _ h in
    let (base, b, h2) = bind-eq-ok (base_fields v lines []) _ h1 in
    let (amount, c, h3) = bind-eq-ok (non_zero_total v) _ h2 in ap items_of (ok-injective h3)
