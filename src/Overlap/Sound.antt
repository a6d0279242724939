-- ===== src/Overlap/Sound.antt =====
-- When the gate excludes a voucher as already posted.
use eco_green_zoho_migration.Overlap.Postings.{HasOnePosting, is_candidate_iff, one_passes_iff}
use eco_green_zoho_migration.Base.{
  ◌≡◌, ◌≢◌, ◌⊎◌, ◌↔◌, refl, Text, text, Option, some, List, [], ◌∷◌, filter, arith, option_text_Eq,
  option_text_eq_iff,
}
use eco_green_zoho_migration.Overlap.{
  SpEvidence, OverlapView, smart_pharma_already_posted, not_applicable, classify_overlap,
  is_candidate, on_matches,
}

by_matches :
    (v : OverlapView) (coverage : Option Text) (evs matches : List SpEvidence)
    → ((on_matches v coverage evs matches).class ≡ smart_pharma_already_posted)
      ↔ ((ev : SpEvidence) × (matches ≡ ev ∷ []))
by_matches v coverage [] [] = (λ h. absurd (ground arith), λ h. absurd (ground arith))
by_matches v coverage (e ∷ evs) [] = (λ h. absurd (ground arith), λ h. absurd (ground arith))
by_matches v coverage evs (ev ∷ []) = (λ h. (ev, refl), λ h. refl)
by_matches v coverage evs (ev ∷ ev' ∷ more) =
    (λ h. absurd (ground arith), λ h. absurd (ground arith))

passes_not :
    (v : OverlapView) (coverage : Option Text) (evs matches : List SpEvidence)
    → (on_matches v coverage evs matches).class ≢ not_applicable
passes_not v coverage [] [] h = ground arith
passes_not v coverage (e ∷ evs) [] h = ground arith
passes_not v coverage evs (ev ∷ []) h = ground arith
passes_not v coverage evs (ev ∷ ev' ∷ more) h = ground arith

-- A voucher is excluded as already posted by Smart Pharma exactly when its rule says COVERED or
-- PARTIAL and exactly one row of evidence has its branch, date, type, payment method, tax bucket and
-- amount and names a batch or a record in the books; and it passes the gate exactly when its rule
-- says NOT_COVERED.
pub excluded_iff :
    (coverage : Option Text) (v : OverlapView) (evs : List SpEvidence)
    → (((classify_overlap coverage v evs).class ≡ smart_pharma_already_posted) ↔ (
        ((coverage ≡ some (text "COVERED")) ⊎ (coverage ≡ some (text "PARTIAL")))
        × HasOnePosting v evs))
      × (((classify_overlap coverage v evs).class ≡ not_applicable)
          ↔ (coverage ≡ some (text "NOT_COVERED")))
unfolding classify_overlap
excluded_iff coverage v evs =
    let (o1, o2) = one_passes_iff (is_candidate v) (is_candidate_iff v) evs in
    let (m1, m2) = by_matches v coverage evs (filter (is_candidate v) evs) in
    let never = passes_not v coverage evs (filter (is_candidate v) evs) in
    let (n1, n2) = option_text_eq_iff coverage (some (text "NOT_COVERED")) in
    let (c1, c2) = option_text_eq_iff coverage (some (text "COVERED")) in
    let (p1, p2) = option_text_eq_iff coverage (some (text "PARTIAL")) in
    ((λ h. ground arith, λ h. ground arith), (λ h. ground arith, λ h. ground arith))
