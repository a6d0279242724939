-- ===== src/Transform/Whole.antt =====
-- A bill, a credit note or a vendor credit posts the whole of its voucher.
use eco_green_zoho_migration.Base.{Text, ◌≡◌, ◌≢◌, refl, sym, ap, ◌∙◌, some, List, [], ◌∷◌, ℤ, All}
use eco_green_zoho_migration.Errors.{ok}
use eco_green_zoho_migration.Mapping.{MappingRule}
use eco_green_zoho_migration.Store.Rows.{Voucher, SourceLine}
use eco_green_zoho_migration.Fallible.{steps, map_ok, sum_of}
use eco_green_zoho_migration.Fallible.Sums.{bind-eq-ok, ok-injective}
use eco_green_zoho_migration.Transform.Payload.{
  TargetModule, journal, bill, vendor_credit, credit_note, module_of, Payload,
}
use eco_green_zoho_migration.Transform.Effects
use eco_green_zoho_migration.Transform.Effects.{Effect, items_of, gl_effects}
use eco_green_zoho_migration.Transform.Balanced.{Moves, document_total, effects_move_total}
use eco_green_zoho_migration.Transform.Build.{
  Side, debit_side, credit_side, side_total, other_side, select_content_lines, content_item,
  base_fields,
}
use eco_green_zoho_migration.Transform.Document.{
  content_document, build_for, build_payload, party_of,
}
use eco_green_zoho_migration.Transform.Content.{
  IsOneSided, Fits, content-total, debit_side-Fits, credit_side-Fits,
}

-- The modules that one side of a voucher is the content of.
pub data ContentOf : TargetModule → Side → Type 0 where
  of_bill : ContentOf bill debit_side
  of_credit_note : ContentOf credit_note debit_side
  of_vendor_credit : ContentOf vendor_credit credit_side

All-Fits : (ls : List SourceLine) → All (Fits debit_side) ls
All-Fits [] = tt
All-Fits (l ∷ ls) = (debit_side-Fits l, All-Fits ls)

one_sided_Fits : (ls : List SourceLine) → All IsOneSided ls → All (Fits credit_side) ls
one_sided_Fits [] h = tt
one_sided_Fits (l ∷ ls) h = (credit_side-Fits l h.0, one_sided_Fits ls h.1)

-- The items of a content document come to what each side of the voucher comes to.
content_document-total :
    (with_party : Text → Payload → Payload) (side : Side) (rules : List MappingRule) (v : Voucher)
    (lines : List SourceLine) (p : Payload)
    → ((n : Text) (q : Payload) → items_of (with_party n q) ≡ items_of q)
    → All (Fits side) lines
    → content_document with_party side rules v lines ≡ ok p
    → (t : ℤ) × (side_total side lines ≡ ok t)
      × (side_total (other_side side) lines ≡ ok t)
      × (sum_of Effects.line_amount (items_of p) ≡ ok t)
content_document-total with_party side rules v lines p keeps f h =
    let (party, a, h1) = bind-eq-ok (party_of rules v) _ h in
    let (content, b, h2) = bind-eq-ok (select_content_lines side lines) _ h1 in
    let (items, c, h3) = bind-eq-ok (map_ok (content_item rules v) content) _ h2 in
    let (base, d, h4) = bind-eq-ok (base_fields v lines []) _ h3 in
    let (t, x, y, z) = content-total rules v side lines content items f b c in
    let made = ok-injective h4 in
    (
      t,
      x,
      y,
      ap (λ q. sum_of Effects.line_amount (items_of q)) (sym made)
          ∙ ap (sum_of Effects.line_amount) (keeps _ _)
          ∙ z,
    )

-- What a voucher's own lines come to, on both sides, and what the document's items come to.
abbrev ComesTo : List SourceLine → TargetModule → Payload → Type 0
ComesTo lines m p =
    (t : ℤ) × (side_total debit_side lines ≡ ok t)
    × (side_total credit_side lines ≡ ok t)
    × (document_total m p ≡ ok t)

build_for-ComesTo :
    {m : TargetModule} {side : Side} (rules : List MappingRule) (v : Voucher)
    (lines : List SourceLine) (p : Payload)
    → ContentOf m side
    → (m ≡ vendor_credit → All IsOneSided lines)
    → build_for m rules v lines ≡ ok p
    → ComesTo lines m p
unfolding build_for document_total
build_for-ComesTo rules v lines p of_bill f h =
    content_document-total (λ n q. record q { vendor = some n }) debit_side rules v lines p
      (λ n q. refl) (All-Fits lines) h
build_for-ComesTo rules v lines p of_credit_note f h =
    content_document-total (λ n q. record q { contact = some n }) debit_side rules v lines p
      (λ n q. refl) (All-Fits lines) h
build_for-ComesTo rules v lines p of_vendor_credit f h =
    let (t, x, y, z) =
      content_document-total (λ n q. record q { contact = some n }) credit_side rules v lines p
        (λ n q. refl) (one_sided_Fits lines (f refl)) h in
    (t, y, x, z)

not_journal : {m : TargetModule} {side : Side} → ContentOf m side → m ≢ journal
not_journal of_bill e = cc
not_journal of_credit_note e = cc
not_journal of_vendor_credit e = cc

build_payload-known :
    (name : Text) (m : TargetModule) (rules : List MappingRule) (v : Voucher)
    (lines : List SourceLine)
    → module_of name ≡ some m
    → build_payload name rules v lines ≡ build_for m rules v lines
unfolding build_payload steps
build_payload-known name m rules v lines h = rw h

-- For a bill, a credit note or a vendor credit, where (for a vendor credit) each line of the voucher has
-- a zero debit or a zero credit: whenever a document is built, `glEffects` accepts it, and the
-- entries debit in all, and credit in all, exactly what the voucher's lines debit in all, which is
-- also what they credit in all.
pub posts_whole_voucher :
    (name : Text) (m : TargetModule) (side : Side) (rules : List MappingRule) (v : Voucher)
    (lines : List SourceLine) (p : Payload)
    → module_of name ≡ some m
    → ContentOf m side
    → (m ≡ vendor_credit → All IsOneSided lines)
    → build_payload name rules v lines ≡ ok p
    → (t : ℤ) × (es : List Effect) × (gl_effects name p ≡ ok es)
      × Moves es t t
      × (side_total debit_side lines ≡ ok t)
      × (side_total credit_side lines ≡ ok t)
posts_whole_voucher name m side rules v lines p e c f h =
    let (t, x, y, z) =
      build_for-ComesTo rules v lines p c f
        (sym (build_payload-known name m rules v lines e) ∙ h) in
    let (es, q, moves) = (effects_move_total name m p e (not_journal c)).0 t z in
    (t, es, q, moves, x, y)
