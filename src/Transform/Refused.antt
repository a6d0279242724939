-- ===== src/Transform/Refused.antt =====
-- The balance check of `glEffects`: what passes it, and which journals it refuses.
use eco_green_zoho_migration.Base.{
  Text, ◌≡◌, ◌≢◌, refl, Bool, true, false, not, some, List, [], ◌∷◌, ◌==◌, ℤ, int_Eq, eq_ℤ_iff,
  arith, Option-cases, Bool-cases, inl, inr,
}
use eco_green_zoho_migration.Errors.{Error, Result, ok, err, gl_effects_unbalanced}
use eco_green_zoho_migration.Fallible.{steps, ◌>>=◌, ◌>>◌, throw_when, map_ok, sum_of, read_money}
use eco_green_zoho_migration.Fallible.Sums.{
  bind-eq-ok, sum_of-total, sum_of-eq-ok, map_ok-cons, map_ok-split, read_money-format_money,
}
use eco_green_zoho_migration.Transform.Payload.{journal, module_of, LineItem, Payload}
use eco_green_zoho_migration.Transform.Effects.{
  Effect, eff, or_zero, items_of, debit_of, credit_of, assert_balanced, effects_of,
  effects_or_unknown, gl_effects, journal_effect,
}
use eco_green_zoho_migration.Transform.Balanced.{Moves}

throw_when-ok : (b : Bool) (e : Error) {u : Unit {0}} → throw_when b e ≡ ok u → b ≡ false
unfolding steps
throw_when-ok true e h = cc
throw_when-ok false e h = refl

assert_balanced-ok :
    (es : List Effect) {u : Unit {0}} → assert_balanced es ≡ ok u → (t : ℤ) × Moves es t t
unfolding assert_balanced
assert_balanced-ok es h =
    let (d, p, q) = bind-eq-ok (sum_of debit_of es) _ h in
    let (c, r, s) = bind-eq-ok (sum_of credit_of es) _ q in
    let same : d ≡ c =
      (eq_ℤ_iff d c).0 (ground (arith, throw_when-ok (not (d == c)) gl_effects_unbalanced s)) in
    (d, (p, rw same r))

checked-balance :
    (r : Result (List Effect)) {es : List Effect}
    → (r >>= λ xs. assert_balanced xs >> ok xs) ≡ ok es
    → (t : ℤ) × Moves es t t
unfolding steps
checked-balance (err e) h = absurd cc
checked-balance (ok xs) {es} h =
    let (u, s, t) = bind-eq-ok (assert_balanced xs) (λ u. ok xs) h in
    let same : xs ≡ es = cc t in rw same at (assert_balanced-ok xs s)

-- Whatever the module and the document: entries that `glEffects` gives debit and credit the same in
-- all.
pub effects_balance :
    (name : Text) (p : Payload) (es : List Effect)
    → gl_effects name p ≡ ok es
    → (t : ℤ) × Moves es t t
unfolding gl_effects effects_or_unknown
effects_balance name p es h = elim (Option-cases (module_of name)) [
  | inl e ↦ let refused = rw e at h in absurd cc
  | inr (m, e) ↦ checked-balance (effects_of m p) (rw e at h)
]

journal_amounts :
    (items : List LineItem) (ds cs : List ℤ)
    → map_ok (λ li. read_money (or_zero li.debit)) items ≡ ok ds
    → map_ok (λ li. read_money (or_zero li.credit)) items ≡ ok cs
    → (es : List Effect) × (map_ok journal_effect items ≡ ok es)
      × (map_ok debit_of es ≡ ok ds)
      × (map_ok credit_of es ≡ ok cs)
unfolding steps
journal_amounts [] ds cs h k = ([], refl, h, k)
journal_amounts (x ∷ xs) ds cs h k =
    let (d, ds', p, q, e) = map_ok-split (λ li. read_money (or_zero li.debit)) x xs h in
    let (c, cs', p', q', e') = map_ok-split (λ li. read_money (or_zero li.credit)) x xs k in
    let (es, r, s, t) = journal_amounts xs ds' cs' q q' in
    let entry = eff (some x.account) d c in
    (
      entry ∷ es,
      map_ok-cons journal_effect x xs (rw p (rw p')) r,
      rw e (map_ok-cons debit_of entry es (read_money-format_money d) s),
      rw e' (map_ok-cons credit_of entry es (read_money-format_money c) t),
    )

assert_balanced-sums :
    (es : List Effect) (d c : ℤ)
    → Moves es d c
    → (d ≡ c → assert_balanced es ≡ ok tt)
      × (d ≢ c → assert_balanced es ≡ err gl_effects_unbalanced)
unfolding assert_balanced steps
assert_balanced-sums es d c h = rw h.0 (
    rw h.1 (elim (Bool-cases (d == c)) [
      | inl e ↦ (λ k. rw e, λ k. absurd (k ((eq_ℤ_iff d c).0 e)))
      | inr e ↦ (λ k. absurd (ground (arith, (eq_ℤ_iff d c).1 k)), λ k. rw e)
    ]))

-- Of the module `journal`: a document whose lines' debits are read and come to `d`, and whose credits are read and come to `c`,
-- has entries that debit `d` and credit `c` if the two are equal; if not, it is refused as
-- unbalanced.
pub journal_balances :
    (name : Text) (p : Payload) (d c : ℤ)
    → module_of name ≡ some journal
    → sum_of (λ li. read_money (or_zero li.debit)) (items_of p) ≡ ok d
    → sum_of (λ li. read_money (or_zero li.credit)) (items_of p) ≡ ok c
    → (d ≡ c → (es : List Effect) × (gl_effects name p ≡ ok es) × Moves es d c)
      × (d ≢ c → gl_effects name p ≡ err gl_effects_unbalanced)
unfolding gl_effects effects_or_unknown effects_of steps
journal_balances name p d c n h k =
    let (ds, q, e) = sum_of-eq-ok (λ li. read_money (or_zero li.debit)) (items_of p) h in
    let (cs, q', e') = sum_of-eq-ok (λ li. read_money (or_zero li.credit)) (items_of p) k in
    let (es, r, s, t) = journal_amounts (items_of p) ds cs q q' in
    let moves : Moves es d c =
      (rw e (sum_of-total debit_of es ds s), rw e' (sum_of-total credit_of es cs t)) in
    let (balanced, unbalanced) = assert_balanced-sums es d c moves in
    (λ g. (es, rw n (rw r (rw (balanced g))), moves), λ g. rw n (rw r (rw (unbalanced g))))
