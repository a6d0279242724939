-- ===== src/Transform/Balanced.antt =====
-- What the entries of a document add up to, and when they are refused.
use eco_green_zoho_migration.Base.{
  Text, ◌≡◌, ◌≢◌, refl, true, Option, some, List, [], ◌∷◌, ◌++◌, ◌==◌, ℤ, pos, int_Eq, same_refl,
}
use eco_green_zoho_migration.Errors.{Error, Result, ok, err}
use eco_green_zoho_migration.Money.{format_money}
use eco_green_zoho_migration.Fallible.{steps, ◌>>=◌, map_ok, sum_of, read_money}
use eco_green_zoho_migration.Fallible.Sums.{
  total, total-append, sum_of-total, sum_of-eq-ok, sum_of-eq-err, sum_of-two, map_ok-cons,
  map_ok-split, map_ok-append, map_ok-one, read_money-format_money, zero_+ℤ, +ℤ_zero,
}
use eco_green_zoho_migration.Transform.Payload.{
  TargetModule, journal, bill, vendor_credit, credit_note, vendor_payment, customer_payment,
  expense, bank_transfer, module_of, LineItem, Payload,
}
use eco_green_zoho_migration.Transform.Effects.{
  Effect, eff, or_zero, line_amount, items_of, debit_of, credit_of, assert_balanced, effects_of,
  effects_or_unknown, gl_effects, debit_line, credit_line, lines_against, transfer,
}

-- The entries debit `d` in all, and credit `c`.
abbrev pub Moves : List Effect → ℤ → ℤ → Type 0
Moves es d c = (sum_of debit_of es ≡ ok d) × (sum_of credit_of es ≡ ok c)

assert_balanced_iff :
    (es : List Effect) (d c : ℤ) → Moves es d c → (d == c) ≡ true → assert_balanced es ≡ ok tt
unfolding assert_balanced steps
assert_balanced_iff es d c h e = rw h.0 (rw h.1 (rw e))

-- Entries that put the whole amount on the side `own`, and nothing on the side `other`.
abbrev OnSide : (Effect → Result ℤ) → (Effect → Result ℤ) → (ℤ → Effect) → Type 0
OnSide own other entry = (n : ℤ) → (own (entry n) ≡ ok n) × (other (entry n) ≡ ok (pos 0))

-- An entry prints its two amounts, and they are read back.
printed :
    (n : ℤ)
    → (read_money (format_money n) ≡ ok n) × (read_money (format_money (pos 0)) ≡ ok (pos 0))
printed n = (read_money-format_money n, read_money-format_money (pos 0))

module _ (own other : Effect → Result ℤ) where
  lines-amounts :
      (entry : LineItem → ℤ → Effect)
      → ((li : LineItem) → OnSide own other (entry li))
      → (items : List LineItem) {ns : List ℤ} → map_ok line_amount items ≡ ok ns
      → (es : List Effect) × (zs : List ℤ) × (map_ok
            (λ li. line_amount li >>= λ a. ok (entry li a))
            items
          ≡ ok es)
        × (map_ok own es ≡ ok ns)
        × (map_ok other es ≡ ok zs)
        × (total zs ≡ pos 0)
  unfolding steps
  lines-amounts entry side [] h = ([], [], refl, h, refl, refl)
  lines-amounts entry side (x ∷ xs) h =
      let (n, ns, p, q, e) = map_ok-split line_amount x xs h in
      let (es, zs, r, s, t, z) = lines-amounts entry side xs q in
      (
        entry x n ∷ es,
        pos 0 ∷ zs,
        rw p (rw r),
        rw e (map_ok-cons own (entry x n) es (side x n).0 s),
        map_ok-cons other (entry x n) es (side x n).1 t,
        rw z (zero_+ℤ (pos 0)),
      )

  -- The lines on one side, and their total against them on the other.
  lines_against-amounts :
      (entry : LineItem → ℤ → Effect) (against : ℤ → Effect)
      → ((li : LineItem) → OnSide own other (entry li))
      → OnSide other own against
      → (items : List LineItem) (ns : List ℤ) → map_ok line_amount items ≡ ok ns
      → (es : List Effect) × (lines_against entry against items ≡ ok es)
        × (sum_of own es ≡ ok (total ns))
        × (sum_of other es ≡ ok (total ns))
  lines_against-amounts entry against side counter items ns h =
      let (es, zs, r, s, t, z) = lines-amounts entry side items h in
      let last = against (total ns) in
      let owns = map_ok-append own es (last ∷ []) s (map_ok-one own last (counter (total ns)).1) in
      let others =
        map_ok-append other es (last ∷ []) t (map_ok-one other last (counter (total ns)).0) in
      (
        es ++ last ∷ [],
        rw r (rw (sum_of-total line_amount items ns h) (unfold steps in refl)),
        rw (sum_of-total own _ _ owns) (rw total-append (rw +ℤ_zero (rw +ℤ_zero))),
        rw (sum_of-total other _ _ others) (rw total-append (rw z (rw zero_+ℤ (rw +ℤ_zero)))),
      )

  -- The first amount that cannot be read is the error.
  lines_against-error :
      (entry : LineItem → ℤ → Effect) (against : ℤ → Effect) (items : List LineItem) {e : Error}
      → map_ok line_amount items ≡ err e
      → map_ok (λ li. line_amount li >>= λ a. ok (entry li a)) items ≡ err e
  unfolding steps
  lines_against-error entry against [] h = cc
  lines_against-error entry against (x ∷ xs) {e} h =
      step (line_amount x) (map_ok line_amount xs) h (λ k. lines_against-error entry against xs k)
    where
      step :
          (r : Result ℤ) (q : Result (List ℤ))
          → (r >>= λ a. q >>= λ ns. ok (a ∷ ns)) ≡ err e
          → (q ≡ err e → map_ok (λ li. line_amount li >>= λ a. ok (entry li a)) xs ≡ err e)
          → ((r >>= λ a. ok (entry x a)) >>= λ y.
              map_ok (λ li. line_amount li >>= λ a. ok (entry li a)) xs >>= λ ys. ok (y ∷ ys))
            ≡ err e
      step (ok a) (ok ns) h k = cc
      step (ok a) (err d) h k = rw (k (cc h))
      step (err d) q h k = cc

-- What a document amounts to: its lines together, or its one amount.
unfoldable pub document_total : TargetModule → Payload → Result ℤ
document_total journal p = sum_of (λ li. read_money (or_zero li.debit)) (items_of p)
document_total bill p = sum_of line_amount (items_of p)
document_total vendor_credit p = sum_of line_amount (items_of p)
document_total credit_note p = sum_of line_amount (items_of p)
document_total vendor_payment p = read_money (or_zero p.amount)
document_total customer_payment p = read_money (or_zero p.amount)
document_total expense p = read_money (or_zero p.amount)
document_total bank_transfer p = read_money (or_zero p.amount)

-- The entries of a document that was read, and the error of one that was not.
abbrev IsTotalled : Result ℤ → Result (List Effect) → Type 0
IsTotalled total es =
    ((t : ℤ) → total ≡ ok t → (xs : List Effect) × (es ≡ ok xs) × Moves xs t t)
    × ((e : Error) → total ≡ err e → es ≡ err e)

lines_against-IsTotalled :
    (entry : LineItem → ℤ → Effect) (against : ℤ → Effect) (items : List LineItem)
    → ((ns : List ℤ)
        → map_ok line_amount items ≡ ok ns
        → (es : List Effect) × (lines_against entry against items ≡ ok es)
          × Moves es (total ns) (total ns))
    → IsTotalled (sum_of line_amount items) (lines_against entry against items)
unfolding steps
lines_against-IsTotalled entry against items good = (
  λ t h. let (ns, q, e) = sum_of-eq-ok line_amount items h in rw e (good ns q),
  λ e h. rw (
      lines_against-error debit_of credit_of entry against items
        (sum_of-eq-err line_amount items h)),
)

debits-IsTotalled :
    (account : Option Text) (items : List LineItem)
    → IsTotalled
        (sum_of line_amount items)
        (lines_against debit_line (λ t. eff account (pos 0) t) items)
debits-IsTotalled account items =
    lines_against-IsTotalled debit_line (λ t. eff account (pos 0) t) items
      λ ns h.
        let (es, r, d, c) =
          lines_against-amounts debit_of credit_of debit_line (λ t. eff account (pos 0) t)
            (λ li. printed) printed items ns h in
        (es, r, (d, c))

credits-IsTotalled :
    (account : Option Text) (items : List LineItem)
    → IsTotalled
        (sum_of line_amount items)
        (lines_against credit_line (λ t. eff account t (pos 0)) items)
credits-IsTotalled account items =
    lines_against-IsTotalled credit_line (λ t. eff account t (pos 0)) items
      λ ns h.
        let (es, r, c, d) =
          lines_against-amounts credit_of debit_of credit_line (λ t. eff account t (pos 0))
            (λ li. printed) printed items ns h in
        (es, r, (d, c))

transfer-IsTotalled :
    (to from : ℤ → Effect) (p : Payload)
    → OnSide debit_of credit_of to
    → OnSide credit_of debit_of from
    → IsTotalled (read_money (or_zero p.amount)) (transfer to from p)
unfolding steps
transfer-IsTotalled to from p h k = (
  λ t e. (
    to t ∷ from t ∷ [],
    rw e,
    (
      rw +ℤ_zero at (sum_of-two debit_of (to t) (from t) (h t).0 (k t).1),
      rw zero_+ℤ at (sum_of-two credit_of (to t) (from t) (h t).1 (k t).0),
    ),
  ),
  λ d e. rw e,
)

-- Every document but a journal.
effects_of-IsTotalled :
    (m : TargetModule) (p : Payload)
    → m ≢ journal
    → IsTotalled (document_total m p) (effects_of m p)
unfolding effects_of document_total
effects_of-IsTotalled journal p h = absurd (h refl)
effects_of-IsTotalled bill p h = debits-IsTotalled _ (items_of p)
effects_of-IsTotalled vendor_credit p h = credits-IsTotalled _ (items_of p)
effects_of-IsTotalled credit_note p h = debits-IsTotalled _ (items_of p)
effects_of-IsTotalled vendor_payment p h = transfer-IsTotalled _ _ p printed printed
effects_of-IsTotalled customer_payment p h = transfer-IsTotalled _ _ p printed printed
effects_of-IsTotalled expense p h = transfer-IsTotalled _ _ p printed printed
effects_of-IsTotalled bank_transfer p h = transfer-IsTotalled _ _ p printed printed

-- For a document of any module but `journal`: where its lines, or its one amount, are read and come to
-- `t`, `glEffects` gives entries that debit `t` in all and credit `t` in all, so that the balance
-- check never refuses it; where an amount is not read, that error is the outcome.
pub effects_move_total :
    (name : Text) (m : TargetModule) (p : Payload)
    → module_of name ≡ some m
    → m ≢ journal
    → ((t : ℤ)
        → document_total m p ≡ ok t
        → (es : List Effect) × (gl_effects name p ≡ ok es) × Moves es t t)
      × ((e : Error) → document_total m p ≡ err e → gl_effects name p ≡ err e)
unfolding gl_effects effects_or_unknown steps
effects_move_total name m p h j =
    let (good, bad) = effects_of-IsTotalled m p j in
    (
      λ t q.
          let (es, r, ms) = good t q in
          (es, rw h (rw r (rw (assert_balanced_iff es t t ms (same_refl t)))), ms),
      λ e q. rw h (rw (bad e q)),
    )
