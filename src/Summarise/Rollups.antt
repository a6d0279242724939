-- ===== src/Summarise/Rollups.antt =====
-- The rollup of a ledger is the sum of its rows by type, and of its lines.
use mathlib.Core.Path.{subst}
use eco_green_zoho_migration.Base.{
  Text, text, ◌≡◌, refl, sym, ap, ◌∙◌, Bool, true, false, List, [], ◌∷◌, All, filter, if◌then◌else◌,
  ◌==◌, text_Eq, text_eq_iff, ℤ, pos, ◌+ℤ◌, Bool-cases, inl, inr,
}
use eco_green_zoho_migration.Errors.{Result, ok}
use eco_green_zoho_migration.Store.Rows.{SourceLine}
use eco_green_zoho_migration.Fallible.{steps, read_money, sum_of, sum_from, map_ok}
use eco_green_zoho_migration.Fallible.Sums.{
  bind-eq-ok, ok-injective, +ℤ_assoc, +ℤ_comm, +ℤ_zero, zero_+ℤ, bind-ok, map_ok-split,
}
use eco_green_zoho_migration.Summarise.{
  Group, Gathered, new_group, put_line, touch, add_line, gather_from, nothing_gathered, type_key,
}
use eco_green_zoho_migration.Summarise.Keys.{IsNulFree, IsTyped, IsRollup, IsTyped-ledger}

-- The sum of a field over the entries of a ledger.
abbrev pub ledger_sum : (Group → ℤ) → Text → List Group → ℤ
ledger_sum f ledger [] = pos 0
ledger_sum f ledger (g ∷ gs) =
    if g.ledger_code == ledger then f g +ℤ ledger_sum f ledger gs else ledger_sum f ledger gs

swap_in :
    (b : Bool) (x y z : ℤ)
    → (if b then (x +ℤ y) +ℤ z else z) ≡ (if b then x +ℤ z else z) +ℤ (if b then y else pos 0)
swap_in true x y z = +ℤ_assoc x y z ∙ ap (λ w. x +ℤ w) (+ℤ_comm y z) ∙ sym (+ℤ_assoc x z y)
swap_in false x y z = sym (+ℤ_zero z)

pass_by :
    (b : Bool) (x y z : ℤ) → (if b then x +ℤ (y +ℤ z) else y +ℤ z) ≡ (if b then x +ℤ y else y) +ℤ z
pass_by true x y z = sym (+ℤ_assoc x y z)
pass_by false x y z = refl

zero_if : (b : Bool) (w : ℤ) → (if b then pos 0 +ℤ pos 0 else pos 0) +ℤ w ≡ pos 0 +ℤ w
zero_if true w = ap (λ z. z +ℤ w) (zero_+ℤ (pos 0))
zero_if false w = refl

-- A field of an entry to which each line adds an amount of its own.
module _ (f : Group → ℤ) (own : SourceLine → Result ℤ) (pick : ℤ → ℤ → ℤ)
    (puts : (l : SourceLine) (d c : ℤ) (g : Group) → f (put_line l d c g) ≡ f g +ℤ pick d c)
    (starts : (key ledger kind : Text) → f (new_group key ledger kind) ≡ pos 0)
    (owns : (l : SourceLine) (d c : ℤ)
      → read_money l.debit ≡ ok d
      → read_money l.credit ≡ ok c
      → own l ≡ ok (pick d c)) where
  ledger_sum-touch :
      (ledger key kind : Text) (l : SourceLine) (d c : ℤ) (gs : List Group)
      → All (λ g. g.group_key ≡ key → g.ledger_code ≡ l.ledger_code) gs
      → ledger_sum f ledger (touch key l.ledger_code kind (put_line l d c) gs)
        ≡ ledger_sum f ledger gs +ℤ (if l.ledger_code == ledger then pick d c else pos 0)
  unfolding touch
  ledger_sum-touch ledger key kind l d c [] h = rw puts (
      rw starts (
        swap_in (l.ledger_code == ledger) (pos 0) (pick d c) (pos 0)
        ∙ zero_if (l.ledger_code == ledger) (if l.ledger_code == ledger then pick d c else pos 0)))
  ledger_sum-touch ledger key kind l d c (g ∷ gs) h = elim (Bool-cases (g.group_key == key)) [
    | inl e ↦
        let same = h.0 ((text_eq_iff g.group_key key).0 e) in
        rw e (
          ap
            (λ x.
              if g.ledger_code == ledger
              then x +ℤ ledger_sum f ledger gs
              else ledger_sum f ledger gs)
            (puts l d c g)
          ∙ swap_in (g.ledger_code == ledger) (f g) (pick d c) (ledger_sum f ledger gs)
          ∙ ap (λ x. ledger_sum f ledger (g ∷ gs) +ℤ (if x == ledger then pick d c else pos 0))
              same)
    | inr e ↦ rw e (
        ap (λ x. if g.ledger_code == ledger then f g +ℤ x else x)
          (ledger_sum-touch ledger key kind l d c gs h.1)
        ∙ pass_by (g.ledger_code == ledger) (f g) (ledger_sum f ledger gs)
            (if l.ledger_code == ledger then pick d c else pos 0))
  ]

  -- One of the two maps, whose entries have `Own` keys.
  module _ (Own : Group → Type 0) (view : Gathered → List Group) (key kind : SourceLine → Text)
      (viewed : (l : SourceLine) (d c : ℤ) (g : Gathered)
        → view (add_line l d c g) ≡ touch (key l) l.ledger_code (kind l) (put_line l d c) (view g))
      (own_new : (l : SourceLine) (d c : ℤ)
        → IsNulFree l.ledger_code
        → Own (put_line l d c (new_group (key l) l.ledger_code (kind l))))
      (own_put : (l : SourceLine) (d c : ℤ) (g : Group) → Own g → Own (put_line l d c g))
      (own_ledger : (l : SourceLine) (g : Group)
        → IsNulFree l.ledger_code
        → Own g
        → g.group_key ≡ key l
        → g.ledger_code ≡ l.ledger_code) where
    touch-Own :
        (l : SourceLine) (d c : ℤ) (gs : List Group)
        → IsNulFree l.ledger_code
        → All Own gs
        → All Own (touch (key l) l.ledger_code (kind l) (put_line l d c) gs)
    unfolding touch
    touch-Own l d c [] n h = (own_new l d c n, tt)
    touch-Own l d c (g ∷ gs) n h = elim (Bool-cases (g.group_key == key l)) [
      | inl e ↦ rw e (own_put l d c g h.0, h.1)
      | inr e ↦ rw e (h.0, touch-Own l d c gs n h.1)
    ]

    keys_apart :
        (l : SourceLine) (gs : List Group)
        → IsNulFree l.ledger_code
        → All Own gs
        → All (λ g. g.group_key ≡ key l → g.ledger_code ≡ l.ledger_code) gs
    keys_apart l [] n h = tt
    keys_apart l (g ∷ gs) n h = (own_ledger l g n h.0, keys_apart l gs n h.1)

    ledger_total :
        (ledger : Text) (g : Gathered) (ls : List SourceLine) {r : Gathered}
        → All (λ l. IsNulFree l.ledger_code) ls
        → All Own (view g)
        → gather_from g ls ≡ ok r
        → sum_from own (ledger_sum f ledger (view g)) (filter (λ l. l.ledger_code == ledger) ls)
          ≡ ok (ledger_sum f ledger (view r))
    unfolding steps gather_from
    ledger_total ledger g [] n h k = ap (λ r. ok (ledger_sum f ledger (view r))) (ok-injective k)
    ledger_total ledger g (l ∷ ls) n h k =
        let (d, p, k1) = bind-eq-ok (read_money l.debit) _ k in
        let (c, q, k2) = bind-eq-ok (read_money l.credit) _ k1 in
        let kept = subst (All Own) (sym (viewed l d c g)) (touch-Own l d c (view g) n.0 h) in
        let rest = ledger_total ledger (add_line l d c g) ls n.1 kept k2 in
        let step =
          ap (ledger_sum f ledger) (viewed l d c g)
          ∙ ledger_sum-touch ledger (key l) (kind l) l d c (view g) (keys_apart l (view g) n.0 h) in
        taken (l.ledger_code == ledger) l (filter (λ x. x.ledger_code == ledger) ls) d c p q
          (ledger_sum f ledger (view g)) (rw step at rest)
      where
        taken :
            (b : Bool) (l : SourceLine) (rest : List SourceLine) (d c : ℤ)
            → read_money l.debit ≡ ok d
            → read_money l.credit ≡ ok c
            → (t : ℤ) {u : ℤ} → sum_from own (t +ℤ (if b then pick d c else pos 0)) rest ≡ ok u
            → sum_from own t (if b then l ∷ rest else rest) ≡ ok u
        taken true l rest d c p q t e = rw (owns l d c p q) e
        taken false l rest d c p q t e = rw +ℤ_zero at e

module _ (f : Group → ℤ) (own : SourceLine → Result ℤ) (pick : ℤ → ℤ → ℤ)
    (puts : (l : SourceLine) (d c : ℤ) (g : Group) → f (put_line l d c g) ≡ f g +ℤ pick d c)
    (starts : (key ledger kind : Text) → f (new_group key ledger kind) ≡ pos 0)
    (owns : (l : SourceLine) (d c : ℤ)
      → read_money l.debit ≡ ok d
      → read_money l.credit ≡ ok c
      → own l ≡ ok (pick d c)) where
  both_maps :
      (ledger : Text) (ls : List SourceLine) (g : Gathered)
      → All (λ l. IsNulFree l.ledger_code) ls
      → gather_from nothing_gathered ls ≡ ok g
      → (sum_of own (filter (λ l. l.ledger_code == ledger) ls) ≡ ok (ledger_sum f ledger g.stars))
        × (ledger_sum f ledger g.groups ≡ ledger_sum f ledger g.stars)
  both_maps ledger ls g n h =
      let typed =
        ledger_total f own pick puts starts owns IsTyped (λ x. x.groups) type_key
          (λ l. l.voucher_type) (λ l d c x. refl) (λ l d c k. (refl, k)) (λ l d c x k. k)
          (λ l x k t e. IsTyped-ledger x l k t e) ledger nothing_gathered ls n tt h in
      let rolled =
        ledger_total f own pick puts starts owns IsRollup (λ x. x.stars) (λ l. l.ledger_code)
          (λ l. text "*") (λ l d c x. refl) (λ l d c k. refl) (λ l d c x k. k)
          (λ l x k t e. sym t ∙ e) ledger nothing_gathered ls n tt h in
      (rolled, ok-injective (sym typed ∙ rolled))

-- What holds of the entries once they are gathered.
gathered_sums :
    (ledger : Text) (ls : List SourceLine) (g : Gathered)
    → All (λ l. IsNulFree l.ledger_code) ls
    → gather_from nothing_gathered ls ≡ ok g
    → (sum_of (λ l. read_money l.debit) (filter (λ l. l.ledger_code == ledger) ls)
        ≡ ok (ledger_sum (λ x. x.debit) ledger g.stars))
      × (ledger_sum (λ x. x.debit) ledger g.groups ≡ ledger_sum (λ x. x.debit) ledger g.stars)
      × (sum_of (λ l. read_money l.credit) (filter (λ l. l.ledger_code == ledger) ls)
          ≡ ok (ledger_sum (λ x. x.credit) ledger g.stars))
      × (ledger_sum (λ x. x.credit) ledger g.groups ≡ ledger_sum (λ x. x.credit) ledger g.stars)
gathered_sums ledger ls g n h =
    let (debits, by_debit) =
      both_maps (λ x. x.debit) (λ l. read_money l.debit) (λ d c. d) (λ l d c x. refl)
        (λ k y z. refl) (λ l d c p q. p) ledger ls g n h in
    let (credits, by_credit) =
      both_maps (λ x. x.credit) (λ l. read_money l.credit) (λ d c. c) (λ l d c x. refl)
        (λ k y z. refl) (λ l d c p q. q) ledger ls g n h in
    (debits, by_debit, credits, by_credit)

gather_computed :
    (g : Gathered) (ls : List SourceLine) (ds cs : List ℤ)
    → map_ok (λ l. read_money l.debit) ls ≡ ok ds
    → map_ok (λ l. read_money l.credit) ls ≡ ok cs
    → (r : Gathered) × (gather_from g ls ≡ ok r)
unfolding steps gather_from
gather_computed g [] ds cs h k = (g, refl)
gather_computed g (l ∷ ls) ds cs h k =
    let (d, ds', p, q, e) = map_ok-split (λ x. read_money x.debit) l ls h in
    let (c, cs', p', q', e') = map_ok-split (λ x. read_money x.credit) l ls k in
    let (r, s) = gather_computed (add_line l d c g) ls ds' cs' q q' in
    (r, bind-ok _ p (bind-ok _ p' s))

-- For any ledger, where no ledger code of the lines holds a NUL and every amount is read: the lines are
-- gathered, and the entries by voucher type of that ledger, its rollup, and the lines with that ledger
-- code all have the same debits in all, and the same credits in all.
pub rollups_are_sums :
    (ledger : Text) (ls : List SourceLine) (ds cs : List ℤ)
    → All (λ l. IsNulFree l.ledger_code) ls
    → map_ok (λ l. read_money l.debit) ls ≡ ok ds
    → map_ok (λ l. read_money l.credit) ls ≡ ok cs
    → (g : Gathered) × (gather_from nothing_gathered ls ≡ ok g)
      × (sum_of (λ l. read_money l.debit) (filter (λ l. l.ledger_code == ledger) ls)
          ≡ ok (ledger_sum (λ x. x.debit) ledger g.stars))
      × (ledger_sum (λ x. x.debit) ledger g.groups ≡ ledger_sum (λ x. x.debit) ledger g.stars)
      × (sum_of (λ l. read_money l.credit) (filter (λ l. l.ledger_code == ledger) ls)
          ≡ ok (ledger_sum (λ x. x.credit) ledger g.stars))
      × (ledger_sum (λ x. x.credit) ledger g.groups ≡ ledger_sum (λ x. x.credit) ledger g.stars)
rollups_are_sums ledger ls ds cs n h k =
    let (g, p) = gather_computed nothing_gathered ls ds cs h k in
    let (debits, by_debit, credits, by_credit) = gathered_sums ledger ls g n p in
    (g, p, debits, by_debit, credits, by_credit)
