-- ===== src/Transform/Mapped.antt =====
-- Every account that a document posts its lines to comes from a rule in force.
use mathlib.Core.Path.{subst}
use eco_green_zoho_migration.Money.{format_money}
use eco_green_zoho_migration.Base.{
  Text, text, ◌≡◌, refl, sym, ap, ◌∙◌, Bool, true, false, Option, none, some, List, [], ◌∷◌, ◌++◌,
  All, not, ◌==◌, pos, int_Eq, text_Eq, exists, if◌then◌else◌, same_refl, arith,
}
use eco_green_zoho_migration.Errors.{Result, ok, unmapped_entity, invalid_target_type}
use eco_green_zoho_migration.Mapping.{MappingRule, Asked, is_in_force}
use eco_green_zoho_migration.Mapping.InForce.{resolves_the_one}
use eco_green_zoho_migration.Store.Rows.{Voucher, SourceLine}
use eco_green_zoho_migration.Fallible.{steps, map_ok, or_err, read_money}
use eco_green_zoho_migration.Fallible.Sums.{bind-eq-ok, ok-injective, map_ok-split, filter_ok-split}
use eco_green_zoho_migration.Transform.Payload.{
  TargetModule, journal, bill, vendor_credit, credit_note, vendor_payment, customer_payment,
  expense, bank_transfer, module_of, LineItem, Payload,
}
use eco_green_zoho_migration.Transform.Effects.{items_of}
use eco_green_zoho_migration.Transform.Build.{
  Side, resolve_key, require_rule, account_for, content_item, journal_item, select_content_lines,
  base_fields, lines_on, is_non_zero, side_amount,
}
use eco_green_zoho_migration.Transform.Document.{
  content_document, build_for, build_payload, party_of, journal_warnings, journal_document,
}
use eco_green_zoho_migration.Transform.Content.{content_item-split, select-split}
use eco_green_zoho_migration.Transform.Itemless.{
  payment_document-items, expense_document-items, transfer_document-items,
}

abbrev pub ledger_asked : Text → Text → Asked
ledger_asked on ledger = record {
  rule_type = text "LEDGER_ACCOUNT";
  source_key = ledger;
  on_date = on;
}

-- The account of a ledger: the target of the one rule of the list that is in force for it.
abbrev pub IsMapped : List MappingRule → Text → Text → Text → Type 0
IsMapped rules on ledger account =
    (r : MappingRule) × (before after : List MappingRule) × (rules ≡ before ++ r ∷ after)
    × (is_in_force (ledger_asked on ledger) r ≡ true)
    × All (λ x. is_in_force (ledger_asked on ledger) x ≡ false) before
    × All (λ x. is_in_force (ledger_asked on ledger) x ≡ false) after
    × (account ≡ r.target_value)

or_err-ok :
    (o : Option MappingRule) (t k : Text) {r : MappingRule}
    → or_err o (unmapped_entity t (some k)) ≡ ok r
    → o ≡ some r
unfolding steps
or_err-ok none t k h = cc
or_err-ok (some q) t k h = ap some (ok-injective h)

account_for-IsMapped :
    (rules : List MappingRule) (on : Text) (l : SourceLine) (account : Text)
    → account_for rules on l ≡ ok account
    → IsMapped rules on l.ledger_code account
unfolding require_rule resolve_key
account_for-IsMapped rules on l account h =
    let (o, p, h1) =
      bind-eq-ok (resolve_key rules on (text "LEDGER_ACCOUNT") (some l.ledger_code)) _ h in
    let (r, q, h2) =
      bind-eq-ok (or_err o (unmapped_entity (text "LEDGER_ACCOUNT") (some l.ledger_code))) _ h1 in
    let found = p ∙ ap ok (or_err-ok o (text "LEDGER_ACCOUNT") l.ledger_code q) in
    let (before, after, e, f, a, b) =
      (resolves_the_one rules (ledger_asked on l.ledger_code)).0 r found in
    (r, before, after, e, f, a, b, sym (ok-injective h2))

abbrev has_ledger : Text → List SourceLine → Bool
has_ledger ledger lines = exists (λ l. l.ledger_code == ledger) lines

-- An item whose account is mapped from the ledger of one of the lines.
abbrev pub IsMappedItem : List MappingRule → Text → List SourceLine → LineItem → Type 0
IsMappedItem rules on lines i =
    (ledger : Text) × (has_ledger ledger lines ≡ true) × IsMapped rules on ledger i.account

All-weaken :
    (rules : List MappingRule) (on : Text) (ls ks : List SourceLine)
    → ((ledger : Text) → has_ledger ledger ls ≡ true → has_ledger ledger ks ≡ true)
    → (items : List LineItem) → All (IsMappedItem rules on ls) items
    → All (IsMappedItem rules on ks) items
All-weaken rules on ls ks sub [] h = tt
All-weaken rules on ls ks sub (i ∷ is) h =
    let ((ledger, found, mapped), rest) = h in
    ((ledger, sub ledger found, mapped), All-weaken rules on ls ks sub is rest)

-- Items made one by one of lines, each with its line's account.
made-mapped :
    (rules : List MappingRule) (v : Voucher) (make : SourceLine → Result LineItem)
    → ((l : SourceLine) (i : LineItem)
        → make l ≡ ok i
        → account_for rules v.transaction_date l ≡ ok i.account)
    → (lines : List SourceLine) (items : List LineItem) → map_ok make lines ≡ ok items
    → All (IsMappedItem rules v.transaction_date lines) items
unfolding steps
made-mapped rules v make gives [] items h = rw (← ok-injective h) tt
made-mapped rules v make gives (l ∷ ls) items h =
    let (i, is, p, q, e) = map_ok-split make l ls h in
    rw e (
      (
        l.ledger_code,
        rw same_refl refl,
        account_for-IsMapped rules v.transaction_date l i.account (gives l i p),
      ),
      All-weaken rules v.transaction_date ls (l ∷ ls) (λ ledger k. ground arith) is
          (made-mapped rules v make gives ls is q),
    )

journal_item-account :
    (rules : List MappingRule) (v : Voucher) (l : SourceLine) (i : LineItem)
    → journal_item rules v l ≡ ok i
    → account_for rules v.transaction_date l ≡ ok i.account
unfolding journal_item
journal_item-account rules v l i h =
    let (a, p, h1) = bind-eq-ok (account_for rules v.transaction_date l) _ h in
    let (d, q, h2) = bind-eq-ok (read_money l.debit) _ h1 in
    let (c, r, h3) = bind-eq-ok (read_money l.credit) _ h2 in
    p ∙ of_branch a (not (d == pos 0)) (format_money d) (format_money c) h3
  where
    of_branch :
        (a : Text) (b : Bool) (x y : Text)
        → ok (
            if b
            then record { account = a; amount = none; debit = some x; credit = none; tax = none }
            else record { account = a; amount = none; debit = none; credit = some y; tax = none })
          ≡ ok i
        → ok a ≡ ok i.account
    of_branch a true x y k = ap (λ z. ok z.account) (ok-injective k)
    of_branch a false x y k = ap (λ z. ok z.account) (ok-injective k)

lines_on-part :
    (side : Side) (lines kept : List SourceLine) (ledger : Text)
    → lines_on side lines ≡ ok kept
    → has_ledger ledger kept ≡ true
    → has_ledger ledger lines ≡ true
unfolding steps
lines_on-part side [] kept ledger h k = rw (← ok-injective h) at k
lines_on-part side (l ∷ ls) kept ledger h k =
    let (b, ys, p, q, e) = filter_ok-split (λ x. is_non_zero (side_amount side x)) l ls h in
    part b ys (rw e at k) (λ f. lines_on-part side ls ys ledger q f)
  where
    part :
        (b : Bool) (ys : List SourceLine)
        → has_ledger ledger (if b then l ∷ ys else ys) ≡ true
        → (has_ledger ledger ys ≡ true → has_ledger ledger ls ≡ true)
        → has_ledger ledger (l ∷ ls) ≡ true
    part true ys f g = ground arith
    part false ys f g = ground arith

content_document-mapped :
    (with_party : Text → Payload → Payload) (side : Side) (rules : List MappingRule) (v : Voucher)
    (lines : List SourceLine) (p : Payload)
    → ((n : Text) (q : Payload) → items_of (with_party n q) ≡ items_of q)
    → content_document with_party side rules v lines ≡ ok p
    → All (IsMappedItem rules v.transaction_date lines) (items_of p)
content_document-mapped with_party side rules v lines p keeps h =
    let (party, a, h1) = bind-eq-ok (party_of rules v) _ h in
    let (content, b, h2) = bind-eq-ok (select_content_lines side lines) _ h1 in
    let (items, c, h3) = bind-eq-ok (map_ok (content_item rules v) content) _ h2 in
    let (base, d, h4) = bind-eq-ok (base_fields v lines []) _ h3 in
    let (others, t, on_side, _, _, _) = select-split side lines content b in
    let same : items ≡ items_of p = sym (keeps party _) ∙ ap items_of (ok-injective h4) in
    let made =
      made-mapped rules v (content_item rules v)
        (λ l i k. let (t, x, y, z) = content_item-split rules v l k in z) content items c in
    subst (All (IsMappedItem rules v.transaction_date lines)) same (
      All-weaken rules v.transaction_date content lines
        (λ ledger. lines_on-part side lines content ledger on_side) items made)

journal_document-mapped :
    (rules : List MappingRule) (v : Voucher) (lines : List SourceLine) (p : Payload)
    → journal_document rules v lines ≡ ok p
    → All (IsMappedItem rules v.transaction_date lines) (items_of p)
journal_document-mapped rules v lines p h =
    let (warnings, a, h1) = bind-eq-ok (journal_warnings rules v) _ h in
    let (items, b, h2) = bind-eq-ok (map_ok (journal_item rules v) lines) _ h1 in
    let (base, c, h3) = bind-eq-ok (base_fields v lines warnings) _ h2 in
    subst (All (IsMappedItem rules v.transaction_date lines)) (ap items_of (ok-injective h3))
      (made-mapped rules v (journal_item rules v) (journal_item-account rules v) lines items b)

-- A document of one amount has no items.
without_items :
    (rules : List MappingRule) (v : Voucher) (lines : List SourceLine) (p : Payload)
    → [] ≡ items_of p
    → All (IsMappedItem rules v.transaction_date lines) (items_of p)
without_items rules v lines p h = rw (← h) tt

build_for-mapped :
    (m : TargetModule) (rules : List MappingRule) (v : Voucher) (lines : List SourceLine)
    (p : Payload)
    → build_for m rules v lines ≡ ok p
    → All (IsMappedItem rules v.transaction_date lines) (items_of p)
unfolding build_for
build_for-mapped bill rules v lines p h =
    content_document-mapped (λ n q. record q { vendor = some n }) _ rules v lines p (λ n q. refl) h
build_for-mapped credit_note rules v lines p h =
    content_document-mapped (λ n q. record q { contact = some n }) _ rules v lines p (λ n q. refl) h
build_for-mapped vendor_credit rules v lines p h =
    content_document-mapped (λ n q. record q { contact = some n }) _ rules v lines p (λ n q. refl) h
build_for-mapped journal rules v lines p h = journal_document-mapped rules v lines p h
build_for-mapped vendor_payment rules v lines p h =
    without_items rules v lines p (payment_document-items rules v lines p h)
build_for-mapped customer_payment rules v lines p h =
    without_items rules v lines p (payment_document-items rules v lines p h)
build_for-mapped expense rules v lines p h =
    without_items rules v lines p (expense_document-items rules v lines p h)
build_for-mapped bank_transfer rules v lines p h =
    without_items rules v lines p (transfer_document-items rules v lines p h)

-- Whatever the module: each line item of a document that is built posts to the account that an approved
-- rule, the only one in force on the voucher's date for the ledger, gives for the ledger of one of
-- the voucher's lines.
pub items_are_mapped :
    (name : Text) (rules : List MappingRule) (v : Voucher) (lines : List SourceLine) (p : Payload)
    → build_payload name rules v lines ≡ ok p
    → All (IsMappedItem rules v.transaction_date lines) (items_of p)
unfolding build_payload
items_are_mapped name rules v lines p h =
    let (m, e, h1) = bind-eq-ok (or_err (module_of name) invalid_target_type) _ h in
    build_for-mapped m rules v lines p h1
