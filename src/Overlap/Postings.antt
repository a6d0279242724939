-- ===== src/Overlap/Postings.antt =====
-- Which rows of evidence are the posting of a voucher, described by their columns.
use eco_green_zoho_migration.Base.{
  ◌≡◌, ◌⊎◌, ◌↔◌, ◌≢◌, inl, inr, refl, ap, sym, ◌∙◌, Text, text_eq_iff, option_text_eq_iff, Bool,
  true, false, ◌||◌, Option, none, some, List, [], ◌∷◌, ◌++◌, All, filter, arith, Bool-cases, ℤ,
  eq_ℤ_iff, truthy, text_Eq, option_text_Eq,
}
use eco_green_zoho_migration.Money.{Parsed, amount, refused, parse_money}
use eco_green_zoho_migration.Overlap.{
  SpEvidence, OverlapView, is_candidate, is_full_core_match, field_match, amounts_equal,
  same_amount,
}

-- A reference that is there and is not the empty text.
abbrev pub IsGiven : Option Text → Type 0
IsGiven column = (ref : Text) × (column ≡ some ref) × (ref ≢ [])

-- The row names the voucher's branch, date, type, payment method, tax bucket and amount (the same number
-- of paise), and a batch of Smart Pharma or a record in the books.
abbrev pub IsPostingOf : OverlapView → SpEvidence → Type 0
IsPostingOf v ev =
    (ev.branch_code ≡ v.branch_code)
    × (ev.business_date ≡ v.transaction_date)
    × (ev.transaction_class ≡ v.voucher_type)
    × (ev.payment_method ≡ v.payment_method)
    × (ev.tax_bucket ≡ v.tax_bucket)
    × ((paise : ℤ) × (parse_money (some ev.amount) ≡ amount paise)
        × (parse_money (some v.amount) ≡ amount paise))
    × (IsGiven ev.sp_batch_ref ⊎ IsGiven ev.books_record_id)

-- One row of the evidence is the posting, and none before or after it is.
abbrev pub HasOnePosting : OverlapView → List SpEvidence → Type 0
HasOnePosting v evs =
    (ev : SpEvidence) × (before after : List SpEvidence) × (evs ≡ before ++ ev ∷ after)
    × IsPostingOf v ev
    × All (λ e. ¬ IsPostingOf v e) before
    × All (λ e. ¬ IsPostingOf v e) after

truthy_iff : (o : Option Text) → (truthy o ≡ true) ↔ IsGiven o
truthy_iff none = (λ h. absurd cc, λ h. absurd (let e = h.1 in cc))
truthy_iff (some []) = (λ h. absurd cc, λ h. absurd (let e = h.1 in let k = h.2 in ground arith))
truthy_iff (some (c ∷ s)) = (λ h. (c ∷ s, refl, λ e. cc), λ h. refl)

amount_injective : {a b : ℤ} → amount a ≡ amount b → a ≡ b
amount_injective {a = a} h = ap (λ p. elim p [ amount x ↦ x | refused e ↦ a ]) h

same_amount_iff :
    (p q : Parsed) → (same_amount p q ≡ true) ↔ ((a : ℤ) × (p ≡ amount a) × (q ≡ amount a))
same_amount_iff (amount a) (amount b) = (
  λ h. (a, refl, ap amount (sym ((eq_ℤ_iff a b).0 h))),
  λ (x, k, l). (eq_ℤ_iff a b).1 (amount_injective (k ∙ sym l)),
)
same_amount_iff (amount a) (refused e) = (λ h. absurd cc, λ h. absurd (let k = h.2 in cc))
same_amount_iff (refused e) q = (λ h. absurd cc, λ h. absurd (let k = h.1 in cc))

pub is_candidate_iff :
    (v : OverlapView) (ev : SpEvidence) → (is_candidate v ev ≡ true) ↔ IsPostingOf v ev
unfolding is_candidate is_full_core_match field_match amounts_equal
is_candidate_iff v ev =
    let (b, b') = text_eq_iff ev.branch_code v.branch_code in
    let (d, d') = text_eq_iff ev.business_date v.transaction_date in
    let (c, c') = text_eq_iff ev.transaction_class v.voucher_type in
    let (p, p') = option_text_eq_iff ev.payment_method v.payment_method in
    let (t, t') = option_text_eq_iff ev.tax_bucket v.tax_bucket in
    let (m, m') = same_amount_iff (parse_money (some ev.amount)) (parse_money (some v.amount)) in
    let (x, x') = truthy_iff ev.sp_batch_ref in
    let (y, y') = truthy_iff ev.books_record_id in
    (
      λ h. (
        b (ground arith),
        d (ground arith),
        c (ground arith),
        p (ground arith),
        t (ground arith),
        m (ground arith),
        elim (Bool-cases (truthy ev.sp_batch_ref)) [
          | inl e ↦ inl (x e)
          | inr e ↦ inr (y (ground arith))
        ],
      ),
      λ (e, f, g, i, j, k, l). elim l [
        | inl r ↦ rw (b' e, d' f, c' g, p' i, t' j, m' k, x' r) refl
        | inr r ↦
            let named : truthy ev.sp_batch_ref || truthy ev.books_record_id ≡ true =
              (let z = y' r in ground arith) in
            rw (b' e, d' f, c' g, p' i, t' j, m' k, named) refl
      ],
    )

module _ {ℓ κ} {A : Type ℓ} (p : A → Bool) {P : A → Type κ}
    (iff : (x : A) → (p x ≡ true) ↔ P x) where
  fails_iff : (x : A) → p x ≡ false → ¬ P x
  fails_iff x h q = let k = (iff x).1 q in cc

  nothing_passes : (xs : List A) → filter p xs ≡ [] → All (λ x. ¬ P x) xs
  nothing_passes [] h = tt
  nothing_passes (x ∷ xs) h = elim (Bool-cases (p x)) [
    | inl e ↦ absurd (let k = rw e at h in cc)
    | inr e ↦ (fails_iff x e, nothing_passes xs (rw e at h))
  ]

  nothing_filtered : (xs : List A) → All (λ x. ¬ P x) xs → filter p xs ≡ []
  nothing_filtered [] h = refl
  nothing_filtered (x ∷ xs) h = elim (Bool-cases (p x)) [
    | inl e ↦ absurd (h.0 ((iff x).0 e))
    | inr e ↦ rw e (nothing_filtered xs h.1)
  ]

  -- Exactly one element passes the test.
  pub one_passes_iff :
      (xs : List A)
      → ((x : A) × (filter p xs ≡ x ∷ [])) ↔ (
          (x : A) × (before after : List A) × (xs ≡ before ++ x ∷ after)
          × P x
          × All (λ y. ¬ P y) before
          × All (λ y. ¬ P y) after)
  one_passes_iff xs = (
    λ (x, h). to xs x h,
    λ (x, before, after, e, q, a, b). (x, ap (filter p) e ∙ from before after x q a b),
  )
    where
      to :
          (xs : List A) (x : A)
          → filter p xs ≡ x ∷ []
          → (x : A) × (before after : List A) × (xs ≡ before ++ x ∷ after)
            × P x
            × All (λ y. ¬ P y) before
            × All (λ y. ¬ P y) after
      to [] x h = absurd cc
      to (y ∷ xs) x h = elim (Bool-cases (p y)) [
        | inl e ↦ (y, [], xs, refl, (iff y).0 e, tt, nothing_passes xs (let k = rw e at h in cc))
        | inr e ↦
            let (z, before, after, i, q, a, b) = to xs x (rw e at h) in
            (z, y ∷ before, after, ap (λ ys. y ∷ ys) i, q, (fails_iff y e, a), b)
      ]

      from :
          (before after : List A) (x : A)
          → P x
          → All (λ y. ¬ P y) before
          → All (λ y. ¬ P y) after
          → filter p (before ++ x ∷ after) ≡ x ∷ []
      from [] after x q a b = rw ((iff x).1 q) (rw (nothing_filtered after b) refl)
      from (y ∷ before) after x q a b = elim (Bool-cases (p y)) [
        | inl e ↦ absurd (a.0 ((iff y).0 e))
        | inr e ↦ rw e (from before after x q a.1 b)
      ]
