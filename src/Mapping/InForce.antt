-- ===== src/Mapping/InForce.antt =====
-- The rule that `resolveRule` finds is the only one in force.
use eco_green_zoho_migration.Base.{
  ◌≡◌, refl, Bool, true, false, none, some, List, [], ◌∷◌, ◌++◌, All, filter, arith, Bool-cases,
  inl, inr, ap,
}
use eco_green_zoho_migration.Errors.{ok}
use eco_green_zoho_migration.Mapping.{MappingRule, Asked, is_in_force, by_matches, resolve_rule}

module _ (p : MappingRule → Bool) where
  none_passes : (xs : List MappingRule) → filter p xs ≡ [] → All (λ x. p x ≡ false) xs
  none_passes [] h = tt
  none_passes (x ∷ xs) h = (ground arith, none_passes xs (ground arith))

  -- Where one element passes, it stands between elements that do not.
  one_passes :
      (xs : List MappingRule) (r : MappingRule)
      → filter p xs ≡ r ∷ []
      → (before after : List MappingRule) × (xs ≡ before ++ r ∷ after)
        × (p r ≡ true)
        × All (λ x. p x ≡ false) before
        × All (λ x. p x ≡ false) after
  one_passes [] r h = absurd (ground arith)
  one_passes (x ∷ xs) r h = elim (Bool-cases (p x)) [
    | inl passes ↦
        (let e : x ≡ r = ground arith in
          ([], xs, ap (λ y. y ∷ xs) e, ground arith, tt, none_passes xs (ground arith)))
    | inr fails ↦
        let (before, after, e, q, a, b) = one_passes xs r (ground arith) in
        (x ∷ before, after, ap (λ ys. x ∷ ys) e, q, (fails, a), b)
  ]

of_none : (ms : List MappingRule) → by_matches ms ≡ ok none → ms ≡ []
of_none [] h = refl
of_none (m ∷ []) h = absurd (ground arith)
of_none (m ∷ n ∷ ms) h = absurd (ground arith)

of_some : (ms : List MappingRule) (r : MappingRule) → by_matches ms ≡ ok (some r) → ms ≡ r ∷ []
of_some [] r h = absurd (ground arith)
of_some (m ∷ []) r h = ground arith
of_some (m ∷ n ∷ ms) r h = absurd (ground arith)

pub resolves_the_one :
    (rules : List MappingRule) (a : Asked)
    → ((r : MappingRule)
        → resolve_rule rules a ≡ ok (some r)
        → (before after : List MappingRule) × (rules ≡ before ++ r ∷ after)
          × (is_in_force a r ≡ true)
          × All (λ x. is_in_force a x ≡ false) before
          × All (λ x. is_in_force a x ≡ false) after)
      × (resolve_rule rules a ≡ ok none → All (λ x. is_in_force a x ≡ false) rules)
unfolding resolve_rule
resolves_the_one rules a = (
  λ r h. one_passes (is_in_force a) rules r (of_some (filter (is_in_force a) rules) r h),
  λ h. none_passes (is_in_force a) rules (of_none (filter (is_in_force a) rules) h),
)
