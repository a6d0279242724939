-- ===== src/Balance/Accounts.antt =====
-- The accounts of a balance bridge are those that any of its inputs names.
use eco_green_zoho_migration.Base.{
  Text, ◌≡◌, ◌↔◌, inl, inr, true, List, [], ◌∷◌, ◌++◌, All, includes, ◌==◌, text_Eq, text_eq_iff,
  text_lt, Bool-cases,
}
use mathlib.Core.Path.{subst}
use eco_green_zoho_migration.Store.Logic.{All-append}
use eco_green_zoho_migration.Batch.Scope.{insert_by, sort_onto}
use eco_green_zoho_migration.Balance.{Amounts, Inputs, add_keys, account_ids}

-- The six inputs.
abbrev pub inputs_of : Inputs → List Amounts
inputs_of x =
    x.baseline ∷ x.migration ∷ x.sp ∷ x.post_run ∷ x.authorized_manual ∷ x.manual_observed ∷ []

module _ (P : Text → Type 0) where
  -- Each account that one object names.
  abbrev pub AllKeys : Amounts → Type 0
  AllKeys m = All (λ e. P e.0) m

  included : (ids : List Text) (k : Text) → includes ids k ≡ true → All P ids → P k
  included [] k h a = absurd cc
  included (i ∷ ids) k h a = elim (Bool-cases (i == k)) [
    | inl e ↦ subst P ((text_eq_iff i k).0 e) a.0
    | inr e ↦ included ids k (rw e at h) a.1
  ]

  All-prefix : (xs ys : List Text) → All P (xs ++ ys) → All P xs × All P ys
  All-prefix [] ys h = (tt, h)
  All-prefix (x ∷ xs) ys h = let (a, b) = All-prefix xs ys h.1 in ((h.0, a), b)

  All-add_keys : (ids : List Text) (m : Amounts) → All P (add_keys ids m) ↔ (All P ids × AllKeys m)
  All-add_keys ids [] = (λ h. (h, tt), λ h. h.0)
  All-add_keys ids (e ∷ es) = elim (Bool-cases (includes ids e.0)) [
    | inl there ↦
        let (to, from) = All-add_keys ids es in
        (
          λ h. let (a, b) = to (rw there at h) in (a, (included ids e.0 there a, b)),
          λ h. rw there (from (h.0, h.1.1)),
        )
    | inr free ↦
        let (to, from) = All-add_keys (ids ++ e.0 ∷ []) es in
        (
          λ h.
              let (a, b) = to (rw free at h) in
              let (c, d) = All-prefix ids (e.0 ∷ []) a in (c, (d.0, b)),
          λ h. rw free (from (All-append P ids (e.0 ∷ []) h.0 (h.1.0, tt), h.1.1)),
        )
  ]

  All-insert_by :
      (k : Text) (ids : List Text) → All P (insert_by (λ x. x) k ids) ↔ (P k × All P ids)
  All-insert_by k [] = (λ h. h, λ h. h)
  All-insert_by k (i ∷ ids) = elim (Bool-cases (text_lt k i)) [
    | inl e ↦ (λ h. rw e at h, λ h. rw e h)
    | inr e ↦
        let (to, from) = All-insert_by k ids in
        (
          λ h. let g = rw e at h in let (a, b) = to g.1 in (a, (g.0, b)),
          λ h. rw e (h.1.0, from (h.0, h.1.1)),
        )
  ]

  All-sort_onto :
      (ids sorted : List Text) → All P (sort_onto (λ x. x) ids sorted) ↔ (All P ids × All P sorted)
  All-sort_onto [] sorted = (λ h. (tt, h), λ h. h.1)
  All-sort_onto (i ∷ ids) sorted =
      let (to, from) = All-sort_onto ids (insert_by (λ x. x) i sorted) in
      let (split, join) = All-insert_by i sorted in
      (
        λ h. let (a, b) = to h in let (c, d) = split b in ((c, a), d),
        λ h. from (h.0.1, join (h.0.0, h.1)),
      )

  named :
      (ids : List Text) (m : Amounts) (Q : Type 0)
      → All P ids ↔ Q
      → All P (add_keys ids m) ↔ (Q × AllKeys m)
  named ids m Q h =
      let (to, from) = All-add_keys ids m in
      (λ k. (h.0 (to k).0, (to k).1), λ k. from (h.1 k.0, k.1))

  pub All-account_ids : (x : Inputs) → All P (account_ids x) ↔ All (λ m. AllKeys m) (inputs_of x)
  unfolding account_ids
  All-account_ids x =
      let a = All-add_keys [] x.baseline in
      let b = named _ x.migration _ a in
      let c = named _ x.sp _ b in
      let d = named _ x.post_run _ c in
      let e = named _ x.authorized_manual _ d in
      let f = named _ x.manual_observed _ e in
      let s = All-sort_onto _ [] in
      (
        λ h.
            let ((((((z, k1), k2), k3), k4), k5), k6) = f.0 (s.0 h).0 in
            (k1, (k2, (k3, (k4, (k5, (k6, tt)))))),
        λ h.
            s.1
              (f.1 ((((((tt, h.0), h.1.0), h.1.1.0), h.1.1.1.0), h.1.1.1.1.0), h.1.1.1.1.1.0), tt),
      )
