-- ===== src/Cutover/Eligible.antt =====
-- When a voucher is in the window of its rule.
use eco_green_zoho_migration.Base.{
  ◌≡◌, ◌⊎◌, inl, inr, refl, ◌↔◌, Bool, true, false, Option, none, some, arith, truthy, or_empty,
  text_lt, ◌&&◌,
}
use eco_green_zoho_migration.Cutover.{
  CutoverRule, Dates, evaluate_eligibility, evaluate_rule, is_before_from, is_after_cutover,
  is_modified_since, is_unknown_coverage,
}

&&-false : (a b : Bool) → a && b ≡ false → (a ≡ false) ⊎ (b ≡ false)
&&-false true b h = inr h
&&-false false b h = inl refl

-- A voucher is eligible exactly when a rule applies whose live start is known and whose coverage is
-- known, and the voucher is dated from its migration start (if it has one) on, before the live start, not after its historical
-- end (if it has one), and was not changed on or after the live start.
pub eligible_iff :
    (rule : Option CutoverRule) (d : Dates)
    → ((evaluate_eligibility rule d).eligible ≡ true) ↔ (
        (r : CutoverRule) × (rule ≡ some r)
        × (truthy r.live_system_start_date ≡ true)
        × (is_unknown_coverage r.smart_pharma_coverage_status ≡ false)
        × ((truthy r.migration_from_date ≡ false)
            ⊎ (text_lt d.transaction_date (or_empty r.migration_from_date) ≡ false))
        × (text_lt d.transaction_date (or_empty r.live_system_start_date) ≡ true)
        × ((truthy r.historical_migration_end_date ≡ false)
            ⊎ (text_lt (or_empty r.historical_migration_end_date) d.transaction_date ≡ false))
        × (is_modified_since d.modified (or_empty r.live_system_start_date) ≡ false))
unfolding evaluate_eligibility evaluate_rule is_before_from is_after_cutover
eligible_iff none d = (λ h. ground arith, λ h. ground arith)
eligible_iff (some r) d = (
  λ h. (
    r,
    refl,
    ground arith,
    ground arith,
    &&-false _ _ (ground arith),
    ground arith,
    &&-false _ _ (ground arith),
    ground arith,
  ),
  λ (q, e, h1, h2, h3, h4, h5, h6). let e' : r ≡ q = ground arith in ground arith,
)
