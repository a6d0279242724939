-- ===== src/Balance/Explained.antt =====
-- When the balance bridge passes.
use eco_green_zoho_migration.Balance.Accounts.{AllKeys, inputs_of, All-account_ids}
use eco_green_zoho_migration.Balance.Near.{IsNear, within_iff, at_most_iff}
use eco_green_zoho_migration.Base.{
  Text, ◌≡◌, ◌↔◌, inl, inr, refl, sym, ap, ◌∙◌, Bool, true, false, ◌&&◌, ◌||◌, List, [], ◌∷◌, every,
  All, if◌then◌else◌, ℤ, pos, arith, Bool-cases, ◌⊎◌, ◌+ℤ◌,
}
use eco_green_zoho_migration.Errors.{Result, ok}
use eco_green_zoho_migration.Money.{within_tolerance}
use eco_green_zoho_migration.Store.Rows.{ReconStatus}
use eco_green_zoho_migration.Fallible.{steps, ◌>>=◌, map_ok, read_money}
use eco_green_zoho_migration.Fallible.Sums.{
  bind-eq-ok, ok-injective, map_ok-split, bind-follow, bind-ok, map_ok-computed,
}
use eco_green_zoho_migration.Balance.{
  Inputs, Account, BalanceBridge, amount_of, account_ids, residual_of, is_at_most, explain_account,
  compute_balance_bridge,
}

-- The residual of an account is within the tolerance of its authorised manual movement, or of zero.
unfoldable is_explained : Inputs → ℤ → Text → Result Bool
unfolding steps
is_explained x tolerance id = do
  baseline ← read_money (amount_of id x.baseline)
  migration ← read_money (amount_of id x.migration)
  sp ← read_money (amount_of id x.sp)
  post_run ← read_money (amount_of id x.post_run)
  authorized ← read_money (amount_of id x.authorized_manual)
  let residual = residual_of baseline migration sp post_run
  ok (within_tolerance residual authorized tolerance || is_at_most residual tolerance)

-- The tolerance is not negative where something is within it.
zero_at_most : (a b t : ℤ) → within_tolerance a b t ≡ true → is_at_most (pos 0) t ≡ true
unfolding within_tolerance
zero_at_most a b t h = ground arith

account_matches :
    (a b t : ℤ)
    → is_at_most (if within_tolerance a b t then pos 0 else a) t
      ≡ within_tolerance a b t || is_at_most a t
account_matches a b t = elim (Bool-cases (within_tolerance a b t)) [
  | inl e ↦ rw e (zero_at_most a b t e)
  | inr e ↦ rw e refl
]

explain_account-is_explained :
    (x : Inputs) (tolerance : ℤ) (id : Text) (a : Account)
    → explain_account x tolerance id ≡ ok a
    → is_explained x tolerance id ≡ ok a.matches
unfolding explain_account is_explained steps
explain_account-is_explained x tolerance id a h =
    bind-follow (read_money (amount_of id x.baseline)) h λ baseline h1.
      bind-follow (read_money (amount_of id x.migration)) h1 λ migration h2.
        bind-follow (read_money (amount_of id x.sp)) h2 λ sp h3.
          bind-follow (read_money (amount_of id x.post_run)) h3 λ post_run h4.
            bind-follow (read_money (amount_of id x.authorized_manual)) h4 λ authorized h5.
              let (observed, u, h6) =
                bind-eq-ok (read_money (amount_of id x.manual_observed)) _ h5 in
              ap ok (
                sym (
                  account_matches (residual_of baseline migration sp post_run) authorized
                    tolerance))
              ∙ ap (λ y. ok y.matches) (ok-injective h6)

All-match :
    (x : Inputs) (tolerance : ℤ) (ids : List Text) (accounts : List Account)
    → map_ok (explain_account x tolerance) ids ≡ ok accounts
    → (every (λ a. a.matches) accounts ≡ true)
      ↔ All (λ id. is_explained x tolerance id ≡ ok true) ids
unfolding steps
All-match x tolerance [] accounts h = (λ k. tt, λ k. rw (← ok-injective h) refl)
All-match x tolerance (id ∷ ids) accounts h =
    let (a, rest, p, q, e) = map_ok-split (explain_account x tolerance) id ids h in
    let this = explain_account-is_explained x tolerance id a p in
    let others = All-match x tolerance ids rest q in
    (
      λ k.
          let both : a.matches && every (λ y. y.matches) rest ≡ true = rw e at k in
          let first : a.matches ≡ true = ground arith in
          (this ∙ ap ok first, others.0 (ground arith)),
      λ k.
          let first : a.matches ≡ true = ok-injective (sym this ∙ k.0) in
          let last = others.1 k.1 in rw e (rw first last),
    )

-- Every input has an amount for the account that can be read; one that is not there has '0.00'.
abbrev pub IsRead : Inputs → Text → Type 0
IsRead x id =
    All (λ amounts. (a : ℤ) × (read_money (amount_of id amounts) ≡ ok a))
      (x.baseline ∷ x.migration ∷ x.sp ∷ x.post_run ∷ x.authorized_manual ∷ x.manual_observed ∷ [])

account_computed :
    (x : Inputs) (tolerance : ℤ) (id : Text)
    → IsRead x id
    → (a : Account) × (explain_account x tolerance id ≡ ok a)
unfolding steps explain_account
account_computed x tolerance id h =
    let ((_, p), ((_, q), ((_, r), ((_, s), ((_, t), ((_, u), _)))))) = h in
    (_, bind-ok _ p (bind-ok _ q (bind-ok _ r (bind-ok _ s (bind-ok _ t (bind-ok _ u refl))))))

accounts_computed :
    (x : Inputs) (tolerance : ℤ) (ids : List Text)
    → All (IsRead x) ids
    → All (λ id. (a : Account) × (explain_account x tolerance id ≡ ok a)) ids
accounts_computed x tolerance [] h = tt
accounts_computed x tolerance (id ∷ ids) h =
    (account_computed x tolerance id h.0, accounts_computed x tolerance ids h.1)

-- The amounts of an account, and that the balance after the run is, within the tolerance, the baseline with
-- the movements of the migration and of Smart Pharma, with the authorised manual one or without it.
abbrev pub IsExplained : Inputs → (tolerance : ℤ) → Text → Type 0
IsExplained x tolerance id =
    (baseline migration sp post_run authorized : ℤ) × (read_money (amount_of id x.baseline)
      ≡ ok baseline)
    × (read_money (amount_of id x.migration) ≡ ok migration)
    × (read_money (amount_of id x.sp) ≡ ok sp)
    × (read_money (amount_of id x.post_run) ≡ ok post_run)
    × (read_money (amount_of id x.authorized_manual) ≡ ok authorized)
    × (IsNear tolerance post_run (((baseline +ℤ migration) +ℤ sp) +ℤ authorized)
        ⊎ IsNear tolerance post_run ((baseline +ℤ migration) +ℤ sp))

either_iff :
    {P Q : Type 0} (a b : Bool) → (a ≡ true) ↔ P → (b ≡ true) ↔ Q → (a || b ≡ true) ↔ (P ⊎ Q)
either_iff true b p q = (λ h. inl (p.0 refl), λ h. refl)
either_iff false b p q =
    (λ h. inr (q.0 h), λ s. elim s [ inl h ↦ absurd (let k = p.1 h in cc) | inr h ↦ q.1 h ])

IsExplained-iff :
    (x : Inputs) (tolerance : ℤ) (id : Text)
    → (is_explained x tolerance id ≡ ok true) ↔ IsExplained x tolerance id
unfolding is_explained steps
IsExplained-iff x tolerance id = (
  λ h.
      let (b, p, h1) = bind-eq-ok (read_money (amount_of id x.baseline)) _ h in
      let (m, q, h2) = bind-eq-ok (read_money (amount_of id x.migration)) _ h1 in
      let (s, r, h3) = bind-eq-ok (read_money (amount_of id x.sp)) _ h2 in
      let (after, t, h4) = bind-eq-ok (read_money (amount_of id x.post_run)) _ h3 in
      let (a, u, h5) = bind-eq-ok (read_money (amount_of id x.authorized_manual)) _ h4 in
      (b, m, s, after, a, p, q, r, t, u, (ways b m s after a).0 (ok-injective h5)),
  λ (b, m, s, after, a, p, q, r, t, u, near).
      bind-ok _ p (
        bind-ok _ q
          (bind-ok _ r (bind-ok _ t (bind-ok _ u (ap ok ((ways b m s after a).1 near)))))),
)
  where
    ways :
        (b m s after a : ℤ)
        → (within_tolerance (residual_of b m s after) a tolerance
              || is_at_most (residual_of b m s after) tolerance
            ≡ true)
          ↔ (IsNear tolerance after (((b +ℤ m) +ℤ s) +ℤ a) ⊎ IsNear tolerance after ((b +ℤ m) +ℤ s))
    ways b m s after a =
        either_iff _ _ (within_iff b m s after a tolerance) (at_most_iff b m s after tolerance)

All-iff :
    (x : Inputs) (tolerance : ℤ) (ids : List Text)
    → All (λ id. is_explained x tolerance id ≡ ok true) ids ↔ All (IsExplained x tolerance) ids
All-iff x tolerance [] = (λ h. h, λ h. h)
All-iff x tolerance (id ∷ ids) =
    let (to, from) = IsExplained-iff x tolerance id in
    let (rest, back) = All-iff x tolerance ids in
    (λ h. (to h.0, rest h.1), λ h. (from h.0, back h.1))

-- Where the tolerance is read, and for every account that an input names every amount: the balance
-- bridge is computed, and its status is PASS exactly if, for each account that any of the six inputs
-- names, the balance after the run is within the tolerance of the baseline with the movements of the
-- migration, of Smart Pharma and the authorised manual one, or of the same without the last.
pub balance_passes_iff :
    (x : Inputs) (tolerance : ℤ)
    → read_money x.tolerance ≡ ok tolerance
    → All (AllKeys (IsRead x)) (inputs_of x)
    → (b : BalanceBridge) × (compute_balance_bridge x ≡ ok b)
      × ((b.status ≡ ReconStatus.pass) ↔ All (AllKeys (IsExplained x tolerance)) (inputs_of x))
unfolding compute_balance_bridge steps
balance_passes_iff x tolerance t h =
    let read = (All-account_ids (IsRead x) x).1 h in
    let (accounts, q) =
      map_ok-computed (explain_account x tolerance) (account_ids x)
        (accounts_computed x tolerance (account_ids x) read) in
    let matches = All-match x tolerance (account_ids x) accounts q in
    let same = All-iff x tolerance (account_ids x) in
    let named = All-account_ids (IsExplained x tolerance) x in
    let all = every (λ a. a.matches) accounts in
    (
      _,
      bind-ok _ t (bind-ok _ q refl),
      (
        λ k. named.0 (same.0 (matches.0 (passes all k))),
        λ k. passed all (matches.1 (same.1 (named.1 k))),
      ),
    )
  where
    passes :
        (v : Bool)
        → (if v then ReconStatus.pass else ReconStatus.fail) ≡ ReconStatus.pass
        → v ≡ true
    passes true k = refl
    passes false k = absurd cc

    passed :
        (v : Bool)
        → v ≡ true
        → (if v then ReconStatus.pass else ReconStatus.fail) ≡ ReconStatus.pass
    passed v k = rw k
