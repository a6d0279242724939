-- ===== src/Classification/Migrated.antt =====
-- Which vouchers are classified for migration.
use eco_green_zoho_migration.Base.{
  Text, text, ◌≡◌, ◌≢◌, ◌↔◌, refl, sym, ◌∙◌, Bool, true, false, Option, none, some, List, [], ◌∷◌,
  filter, ◌==◌, text_Eq, option_text_Eq, arith, Bool-cases, inl, inr,
}
use eco_green_zoho_migration.Store.{Voucher}
use eco_green_zoho_migration.Cutover.{
  CutoverRule, EligibilityReason, rule_missing, live_start_unverified, before_migration_from,
  after_cutover, late_or_back_posted, in_window, evaluate_eligibility, evaluate_rule,
  is_before_from, is_after_cutover,
}
use eco_green_zoho_migration.Overlap.{
  SpEvidence, OverlapView, OverlapClass, Decision, classify_overlap, on_matches, is_candidate,
  smart_pharma_already_posted, partial_or_ambiguous_overlap, not_applicable, migrate,
}
use eco_green_zoho_migration.Overlap.Sound.{excluded_iff}
use eco_green_zoho_migration.Classification.{
  Gates, Verdict, inventory_only, outside_window, not_eligible, posted_already, ambiguous,
  unmapped_module, migrates, judge, on_class, on_reason, overlap_of, coverage_of, rule_for,
  dates_of, view_of, has_route,
}

abbrev pub is_migrated : Verdict → Bool
is_migrated inventory_only = false
is_migrated (outside_window r) = false
is_migrated (not_eligible r) = false
is_migrated (posted_already d) = false
is_migrated (ambiguous d) = false
is_migrated (unmapped_module d) = false
is_migrated (migrates d) = true

on_matches-class :
    (v : OverlapView) (coverage : Option Text) (evs matches : List SpEvidence)
    → (on_matches v coverage evs matches).class ≢ migrate
on_matches-class v coverage [] [] h = cc
on_matches-class v coverage (e ∷ evs) [] h = cc
on_matches-class v coverage evs (ev ∷ []) h = cc
on_matches-class v coverage evs (ev ∷ ev' ∷ more) h = cc

class_not_migrate :
    (coverage : Option Text) (v : OverlapView) (evs : List SpEvidence)
    → (classify_overlap coverage v evs).class ≢ migrate
unfolding classify_overlap
class_not_migrate coverage v evs h =
    let never = on_matches-class v coverage evs (filter (is_candidate v) evs) in ground arith

on_reason-stays : (r : EligibilityReason) → is_migrated (on_reason r) ≡ false
on_reason-stays before_migration_from = refl
on_reason-stays after_cutover = refl
on_reason-stays rule_missing = refl
on_reason-stays live_start_unverified = refl
on_reason-stays late_or_back_posted = refl
on_reason-stays in_window = refl

on_class-migrated :
    (g : Gates) (v : Voucher) (d : Decision) (k : OverlapClass)
    → k ≢ migrate
    → (is_migrated (on_class g v d k) ≡ true) ↔ ((k ≡ not_applicable) × (has_route g v ≡ true))
on_class-migrated g v d migrate n = absurd (n refl)
on_class-migrated g v d smart_pharma_already_posted n = (λ h. absurd cc, λ h. absurd cc)
on_class-migrated g v d partial_or_ambiguous_overlap n = (λ h. absurd cc, λ h. absurd cc)
on_class-migrated g v d not_applicable n = elim (Bool-cases (has_route g v)) [
  | inl e ↦ rw e (λ h. (refl, refl), λ h. refl)
  | inr e ↦ rw e (λ h. absurd cc, λ h. absurd cc)
]

-- Without a date of modification, no voucher is late.
not_late :
    (rule : Option CutoverRule) (d : Text)
    → (evaluate_eligibility rule (record { transaction_date = d; modified = none })).reason
      ≢ late_or_back_posted
unfolding evaluate_eligibility evaluate_rule is_before_from is_after_cutover
not_late none d h = cc
not_late (some r) d h = ground arith

on_reason-late :
    (r : EligibilityReason)
    → on_reason r ≡ not_eligible late_or_back_posted
    → r ≡ late_or_back_posted
on_reason-late before_migration_from h = absurd cc
on_reason-late after_cutover h = absurd cc
on_reason-late rule_missing h = absurd cc
on_reason-late live_start_unverified h = absurd cc
on_reason-late late_or_back_posted h = refl
on_reason-late in_window h = absurd cc

on_class-late :
    (g : Gates) (v : Voucher) (d : Decision) (k : OverlapClass)
    → on_class g v d k ≢ not_eligible late_or_back_posted
on_class-late g v d smart_pharma_already_posted h = cc
on_class-late g v d partial_or_ambiguous_overlap h = cc
on_class-late g v d not_applicable h = ground arith
on_class-late g v d migrate h = ground arith

-- A voucher is classified for migration exactly if it is no stock adjustment, the cutover rule that is
-- resolved for it makes it eligible, that rule's coverage is NOT_COVERED, and some route is approved
-- for its type, on whatever date.
pub judge_migrates_iff :
    (g : Gates) (v : Voucher)
    → (is_migrated (judge g v) ≡ true) ↔ (
        ((v.source_transaction_type == text "STOCK_ADJ") ≡ false)
        × ((evaluate_eligibility (rule_for g v) (dates_of v)).eligible ≡ true)
        × (coverage_of (rule_for g v) ≡ some (text "NOT_COVERED"))
        × (has_route g v ≡ true))
unfolding judge
judge_migrates_iff g v =
    let evs = filter (λ ev. ev.branch_code == v.branch_code) g.sp_evidence in
    let coverage = coverage_of (rule_for g v) in
    let class =
      on_class-migrated g v (overlap_of g v) (overlap_of g v).class
        (class_not_migrate coverage (view_of v) evs) in
    let applies = (excluded_iff coverage (view_of v) evs).1 in
    elim (Bool-cases (v.source_transaction_type == text "STOCK_ADJ")) [
      | inl a ↦ (λ h. absurd (let j = rw a at h in cc), λ h. absurd (cc (h.0, a)))
      | inr a ↦ elim (Bool-cases (evaluate_eligibility (rule_for g v) (dates_of v)).eligible) [
        | inl b ↦ rw a (
            rw b (
              λ h. (refl, refl, applies.0 (class.0 h).0, (class.0 h).1),
              λ h. class.1 (applies.1 h.2, h.3),
            ))
        | inr b ↦ (
          λ h. absurd (let j = sym (on_reason-stays _) ∙ rw (a, b) at h in cc),
          λ h. absurd (cc (h.1, b)),
        )
      ]
    ]

-- No voucher of a run is held back as LATE_OR_BACK_POSTED, whatever the rules and the evidence.
pub never_late : (g : Gates) (v : Voucher) → judge g v ≢ not_eligible late_or_back_posted
unfolding judge
never_late g v h = elim (Bool-cases (v.source_transaction_type == text "STOCK_ADJ")) [
  | inl a ↦ let j = rw a at h in cc
  | inr a ↦ elim (Bool-cases (evaluate_eligibility (rule_for g v) (dates_of v)).eligible) [
    | inl b ↦ on_class-late g v (overlap_of g v) (overlap_of g v).class (rw (a, b) at h)
    | inr b ↦ not_late (rule_for g v) v.transaction_date (on_reason-late _ (rw (a, b) at h))
  ]
]
