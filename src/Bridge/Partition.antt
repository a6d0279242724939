-- ===== src/Bridge/Partition.antt =====
-- The groups of a bridge are a partition of its vouchers.
use eco_green_zoho_migration.Base.{
  ℕ, suc, ◌+◌, ◌≡◌, refl, sym, ap, ◌∙◌, true, List, [], ◌∷◌, length, ◌==◌, ℤ, pos, ◌+ℤ◌, int_Eq,
  nat_Eq, arith, same_refl, Bool-cases, inl, inr,
}
use eco_green_zoho_migration.Errors.{Result, ok}
use eco_green_zoho_migration.Store.Rows.{Voucher, Disposition, Disposition_Eq}
use eco_green_zoho_migration.Fallible.{steps, sum_of, sum_from}
use eco_green_zoho_migration.Fallible.Sums.{bind-eq-ok, ok-injective, +ℤ_assoc, +ℤ_shift, zero_+ℤ}
use eco_green_zoho_migration.Bridge.{
  Group, add_voucher, debit_of, credit_of, group_from, sum_counts, sum_field, put_voucher,
  empty_group,
}

sum_counts-from : (n : ℕ) (gs : List Group) → sum_counts n gs ≡ n + sum_counts 0 gs
sum_counts-from n [] = omega arith
sum_counts-from n (g ∷ gs) =
    omega (arith, sum_counts-from (n + g.count) gs, sum_counts-from (0 + g.count) gs)

sum_counts-add :
    (n : ℕ) (v : Voucher) (d c : ℤ) (gs : List Group)
    → sum_counts n (add_voucher v d c gs) ≡ suc (sum_counts n gs)
unfolding add_voucher
sum_counts-add n v d c [] = omega arith
sum_counts-add n v d c (g ∷ gs) = elim (Bool-cases (g.disposition == v.disposition)) [
  | inl e ↦
      rw e (omega (arith, sum_counts-from (n + (g.count + 1)) gs, sum_counts-from (n + g.count) gs))
  | inr e ↦ rw e (sum_counts-add (n + g.count) v d c gs)
]

counts_all :
    (gs : List Group) (vs : List Voucher) {r : List Group}
    → group_from gs vs ≡ ok r
    → sum_counts 0 r ≡ sum_counts 0 gs + length vs
unfolding steps group_from
counts_all gs [] h = rw (← ok-injective h) (omega arith)
counts_all gs (v ∷ vs) h =
    let (d, p, h1) = bind-eq-ok (debit_of v) _ h in
    let (c, q, h2) = bind-eq-ok (credit_of v) _ h1 in
    omega (arith, counts_all (add_voucher v d c gs) vs h2, sum_counts-add 0 v d c gs)

sum_field-shift :
    (f : Group → ℤ) (t a : ℤ) (gs : List Group) → sum_field f (t +ℤ a) gs ≡ sum_field f t gs +ℤ a
sum_field-shift f t a [] = refl
sum_field-shift f t a (g ∷ gs) = rw (+ℤ_shift t a (f g)) (sum_field-shift f (t +ℤ f g) a gs)

-- An amount of a group, the debits or the credits, to which each voucher adds its own.
module _ (f : Group → ℤ) (own : Voucher → Result ℤ) (pick : ℤ → ℤ → ℤ)
    (puts : (v : Voucher) (d c : ℤ) (g : Group) → f (put_voucher v d c g) ≡ f g +ℤ pick d c)
    (empty : (d : Disposition) → f (empty_group d) ≡ pos 0)
    (owns : (v : Voucher) (d c : ℤ)
      → debit_of v ≡ ok d
      → credit_of v ≡ ok c
      → own v ≡ ok (pick d c)) where
  sum_field-add :
      (t : ℤ) (v : Voucher) (d c : ℤ) (gs : List Group)
      → sum_field f t (add_voucher v d c gs) ≡ sum_field f t gs +ℤ pick d c
  unfolding add_voucher
  sum_field-add t v d c [] = rw puts (rw empty (rw zero_+ℤ))
  sum_field-add t v d c (g ∷ gs) = elim (Bool-cases (g.disposition == v.disposition)) [
    | inl e ↦ rw e (
        ap (λ x. sum_field f (t +ℤ x) gs) (puts v d c g)
        ∙ ap (λ x. sum_field f x gs) (sym (+ℤ_assoc t (f g) (pick d c)))
        ∙ sum_field-shift f (t +ℤ f g) (pick d c) gs)
    | inr e ↦ rw e (sum_field-add (t +ℤ f g) v d c gs)
  ]

  fields_all :
      (gs : List Group) (vs : List Voucher) {r : List Group}
      → group_from gs vs ≡ ok r
      → sum_from own (sum_field f (pos 0) gs) vs ≡ ok (sum_field f (pos 0) r)
  unfolding steps group_from
  fields_all gs [] h = ap (λ r. ok (sum_field f (pos 0) r)) (ok-injective h)
  fields_all gs (v ∷ vs) h =
      let (d, p, h1) = bind-eq-ok (debit_of v) _ h in
      let (c, q, h2) = bind-eq-ok (credit_of v) _ h1 in
      rw (owns v d c p q)
        (rw (← sum_field-add (pos 0) v d c gs) (fields_all (add_voucher v d c gs) vs h2))

-- The groups' counts and amounts sum to those of the vouchers.
pub totals_agree :
    (vs : List Voucher) {gs : List Group} {d c : ℤ}
    → group_from [] vs ≡ ok gs
    → sum_of debit_of vs ≡ ok d
    → sum_of credit_of vs ≡ ok c
    → ((sum_counts 0 gs == length vs) ≡ true)
      × ((sum_field (λ g. g.debit) (pos 0) gs == d) ≡ true)
      × ((sum_field (λ g. g.credit) (pos 0) gs == c) ≡ true)
totals_agree vs {gs} {d} {c} h p q = (
  rw (counts_all [] vs h) (ground arith),
  rw
      (ok-injective (
        sym (
          fields_all (λ g. g.debit) debit_of (λ d c. d) (λ v d c g. refl) (λ d. refl)
            (λ v d c x y. x) [] vs h)
        ∙ p))
      (same_refl d),
  rw
      (ok-injective (
        sym (
          fields_all (λ g. g.credit) credit_of (λ d c. c) (λ v d c g. refl) (λ d. refl)
            (λ v d c x y. y) [] vs h)
        ∙ q))
      (same_refl c),
)
