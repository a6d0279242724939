-- ===== src/Overlap.antt =====
-- src/core/overlap.js: whether a voucher was already posted by Smart Pharma.
pub mod Postings
pub mod Sound
use eco_green_zoho_migration.Base.{
  ℕ, suc, Text, text, Bool, true, false, not, ◌&&◌, ◌||◌, Option, none, some, List, [], ◌∷◌, map,
  filter, every, if◌then◌else◌, truthy, or_empty, ◌==◌, text_Eq, option_text_Eq, ltb, nat_eq, eq_ℤ,
}
use eco_green_zoho_migration.Money.{Parsed, refused, parse_money}

-- A Smart Pharma evidence row.
pub record SpEvidence : Type 0 where
  pub branch_code : Text
  pub business_date : Text
  pub transaction_class : Text
  pub payment_method : Option Text
  pub tax_bucket : Option Text
  pub amount : Text
  pub sp_batch_ref : Option Text
  pub books_record_id : Option Text
  pub books_module : Option Text

-- The voucher as the gate sees it.
pub record OverlapView : Type 0 where
  pub branch_code : Text
  pub transaction_date : Text
  pub voucher_type : Text
  pub payment_method : Option Text
  pub tax_bucket : Option Text
  pub amount : Text
  pub reference_no : Option Text

-- `CORE_FIELDS`
pub data CoreField : Type 0 where
  branch_code business_date transaction_class payment_method tax_bucket amount : CoreField

abbrev pub core_fields : List CoreField
core_fields =
    CoreField.branch_code ∷ business_date ∷ transaction_class ∷ CoreField.payment_method
    ∷ CoreField.tax_bucket ∷ CoreField.amount ∷ []

abbrev pub same_amount : Parsed → Parsed → Bool
same_amount (Parsed.amount a) (Parsed.amount b) = eq_ℤ a b
same_amount (Parsed.amount a) (refused e) = false
same_amount (refused e) p = false

unfoldable pub amounts_equal : Text → Text → Bool
amounts_equal a b = same_amount (parse_money (some a)) (parse_money (some b))

-- `fieldMatch`, without its `hasReference`
unfoldable pub field_match : SpEvidence → OverlapView → CoreField → Bool
field_match ev v CoreField.branch_code = ev.branch_code == v.branch_code
field_match ev v business_date = ev.business_date == v.transaction_date
field_match ev v transaction_class = ev.transaction_class == v.voucher_type
field_match ev v CoreField.payment_method = ev.payment_method == v.payment_method
field_match ev v CoreField.tax_bucket = ev.tax_bucket == v.tax_bucket
field_match ev v CoreField.amount = amounts_equal ev.amount v.amount

abbrev pub has_reference : SpEvidence → Bool
has_reference ev = truthy ev.sp_batch_ref || truthy ev.books_record_id

abbrev pub count : {A : Type 0} → (A → Bool) → List A → ℕ
count p [] = 0
count p (x ∷ xs) = if p x then suc (count p xs) else count p xs

unfoldable pub core_match_count : OverlapView → SpEvidence → ℕ
core_match_count v ev = count (field_match ev v) core_fields

unfoldable pub is_full_core_match : OverlapView → SpEvidence → Bool
is_full_core_match v ev = every (field_match ev v) core_fields

abbrev pub or_else : Option Text → Option Text → Option Text
or_else a b = if truthy a then a else b

abbrev pub reference_of : SpEvidence → Option Text
reference_of ev = or_else ev.sp_batch_ref (or_else ev.books_record_id none)

-- `String.prototype.includes`
abbrev pub is_prefix : Text → Text → Bool
is_prefix [] t = true
is_prefix (c ∷ s) [] = false
is_prefix (c ∷ s) (d ∷ t) = nat_eq c d && is_prefix s t

abbrev pub contains : Text → Text → Bool
contains [] s = is_prefix s []
contains (c ∷ t) s = is_prefix s (c ∷ t) || contains t s

abbrev pub voucher_carries_reference : OverlapView → Option Text → Bool
voucher_carries_reference v ref =
    if truthy ref then contains (or_empty v.reference_no) (or_empty ref) else false

pub data OverlapClass : Type 0 where
  migrate smart_pharma_already_posted partial_or_ambiguous_overlap not_applicable : OverlapClass

-- `MATCH_STRENGTHS`
pub data Strength : Type 0 where
  no_match date_only coverage_rule reference_match full_evidence : Strength

-- The `evidence` object of a decision.
pub data Reasoning : Type 0 where
  not_covered : Reasoning
  coverage_unknown : (coverage : Option Text) → Reasoning
  already_posted : (sp_batch_ref books_record_id books_module : Option Text) → Reasoning
  multiple_rows_match : List SpEvidence → Reasoning
  no_evidence : (coverage : Option Text) → Reasoning
  partial_match : (matched unmatched : List CoreField) → SpEvidence → Reasoning

pub record Decision : Type 0 where
  pub class : OverlapClass
  pub strength : Strength
  pub evidence : Reasoning

unfoldable pub is_candidate : OverlapView → SpEvidence → Bool
is_candidate v ev = is_full_core_match v ev && has_reference ev

-- The row with the most matching fields, the first of them, `best` so far.
abbrev pub best_of : OverlapView → SpEvidence → List SpEvidence → SpEvidence
best_of v best [] = best
best_of v best (c ∷ cs) =
    if ltb (core_match_count v best) (core_match_count v c)
    then best_of v c cs
    else best_of v best cs

abbrev pub is_weak_field : CoreField → Bool
is_weak_field CoreField.branch_code = false
is_weak_field business_date = true
is_weak_field transaction_class = false
is_weak_field CoreField.payment_method = false
is_weak_field CoreField.tax_bucket = false
is_weak_field CoreField.amount = true

abbrev pub on_single_match : OverlapView → SpEvidence → Decision
on_single_match v ev = record {
  class = smart_pharma_already_posted;
  strength =
      if voucher_carries_reference v (reference_of ev) then full_evidence else reference_match;
  evidence = already_posted ev.sp_batch_ref ev.books_record_id ev.books_module;
}

abbrev pub on_partial : OverlapView → SpEvidence → Decision
on_partial v best =
    let matched = filter (field_match best v) core_fields in
    record {
      class = partial_or_ambiguous_overlap;
      strength = if every is_weak_field matched then date_only else reference_match;
      evidence = partial_match matched (filter (λ f. not (field_match best v f)) core_fields) best;
    }

abbrev pub on_no_match : OverlapView → Option Text → List SpEvidence → Decision
on_no_match v coverage [] = record {
  class = partial_or_ambiguous_overlap;
  strength = no_match;
  evidence = no_evidence coverage;
}
on_no_match v coverage (ev ∷ evs) = on_partial v (best_of v ev evs)

-- By the rows that match in full.
abbrev pub on_matches : OverlapView → Option Text → List SpEvidence → List SpEvidence → Decision
on_matches v coverage evs [] = on_no_match v coverage evs
on_matches v coverage evs (ev ∷ []) = on_single_match v ev
on_matches v coverage evs (ev ∷ ev' ∷ more) = record {
  class = partial_or_ambiguous_overlap;
  strength = reference_match;
  evidence = multiple_rows_match (ev ∷ ev' ∷ more);
}

-- `coverage` is `rule?.smart_pharma_coverage_status`.
unfoldable pub classify_overlap :
    (coverage : Option Text) → OverlapView → List SpEvidence → Decision
classify_overlap coverage v evs =
    if coverage == some (text "NOT_COVERED")
    then record { class = not_applicable; strength = no_match; evidence = not_covered }
    else if not (coverage == some (text "COVERED") || coverage == some (text "PARTIAL"))
    then record {
      class = partial_or_ambiguous_overlap;
      strength = coverage_rule;
      evidence = coverage_unknown coverage;
    }
    else on_matches v coverage evs (filter (is_candidate v) evs)
