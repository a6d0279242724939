-- ===== src/Bridge/Groups.antt =====
-- Which vouchers each group of a bridge holds.
use eco_green_zoho_migration.Bridge.Partition.{totals_agree}
use eco_green_zoho_migration.Base.{
  ℕ, ◌≡◌, refl, sym, ap, ◌∙◌, Bool, true, false, List, [], ◌∷◌, ◌++◌, map, length, filter,
  if◌then◌else◌, ◌==◌, ℤ, arith, Bool-cases, inl, inr, All, append_assoc, length-append,
}
use eco_green_zoho_migration.Bridge.Computed.{bridge_computed}
use mathlib.Core.List.{append-nil}
use eco_green_zoho_migration.Errors.{ok}
use eco_green_zoho_migration.Store.Rows.{Voucher, Disposition, Disposition_Eq, disposition_eq_iff}
use eco_green_zoho_migration.Fallible.{steps, sum_of, filter_ok, map_ok}
use eco_green_zoho_migration.Fallible.Sums.{bind-eq-ok, ok-injective, total}
use eco_green_zoho_migration.Bridge.{
  Group, add_voucher, debit_of, credit_of, group_from, count_in, Bridge, compute_bridge, is_leaked,
}

abbrev pub ids_in : Disposition → List Group → List ℕ
ids_in d [] = []
ids_in d (g ∷ gs) = if g.disposition == d then g.voucher_ids else ids_in d gs

-- What a voucher adds to the ids of a disposition.
abbrev id_for : Disposition → Voucher → List ℕ
id_for d v = if v.disposition == d then v.id ∷ [] else []

append_if :
    (b : Bool) (i : ℕ) (xs ys : List ℕ)
    → (if b then xs ++ i ∷ [] else ys) ≡ (if b then xs else ys) ++ (if b then i ∷ [] else [])
append_if true i xs ys = refl
append_if false i xs ys = sym (append-nil ys)

-- Two groups of one disposition do not stand side by side.
other_group :
    (b : Bool) (xs ys zs : List ℕ) (c : List ℕ)
    → (b ≡ true → c ≡ [])
    → ys ≡ zs ++ c
    → (if b then xs else ys) ≡ (if b then xs else zs) ++ c
other_group true xs ys zs c h k = rw (h refl) (sym (append-nil xs))
other_group false xs ys zs c h k = k

flip_false : (a b : Disposition) → (a == b) ≡ false → (b == a) ≡ false
flip_false a b h = ground arith

no_id : (a k : Disposition) (v : Voucher) → a ≡ k → (a == v.disposition) ≡ false → id_for k v ≡ []
no_id a k v h e = rw (rw h at (flip_false a v.disposition e))

ids_in-add :
    (k : Disposition) (v : Voucher) (d c : ℤ) (gs : List Group)
    → ids_in k (add_voucher v d c gs) ≡ ids_in k gs ++ id_for k v
unfolding add_voucher
ids_in-add k v d c [] = refl
ids_in-add k v d c (g ∷ gs) = elim (Bool-cases (g.disposition == v.disposition)) [
  | inl e ↦
      let same : g.disposition ≡ v.disposition =
        (disposition_eq_iff g.disposition v.disposition).0 e in
      rw e (rw same (append_if (v.disposition == k) v.id g.voucher_ids (ids_in k gs)))
  | inr e ↦ rw e (
      other_group (g.disposition == k) g.voucher_ids _ (ids_in k gs) (id_for k v)
        (λ h. no_id g.disposition k v ((disposition_eq_iff g.disposition k).0 h) e)
        (ids_in-add k v d c gs))
]

ids_all :
    (k : Disposition) (gs : List Group) (vs : List Voucher) {r : List Group}
    → group_from gs vs ≡ ok r
    → ids_in k r ≡ ids_in k gs ++ map (λ v. v.id) (filter (λ v. v.disposition == k) vs)
unfolding steps group_from
ids_all k gs [] h = rw (← ok-injective h) (sym (append-nil (ids_in k gs)))
ids_all k gs (v ∷ vs) h =
    let (d, p, h1) = bind-eq-ok (debit_of v) _ h in
    let (c, q, h2) = bind-eq-ok (credit_of v) _ h1 in
    ids_all k (add_voucher v d c gs) vs h2
    ∙ ap (λ xs. xs ++ map (λ x. x.id) (filter (λ x. x.disposition == k) vs)) (ids_in-add k v d c gs)
    ∙ append_assoc (ids_in k gs) (id_for k v) _
    ∙ ap (λ xs. ids_in k gs ++ xs)
        (one_more (v.disposition == k) (filter (λ x. x.disposition == k) vs))
  where
    one_more :
        (b : Bool) (xs : List Voucher)
        → (if b then v.id ∷ [] else []) ++ map (λ x. x.id) xs
          ≡ map (λ x. x.id) (if b then v ∷ xs else xs)
    one_more true xs = refl
    one_more false xs = refl

-- The count of a group is the number of its ids.
IsCounted : List Group → Type 0
IsCounted gs = All (λ g. g.count ≡ length g.voucher_ids) gs

IsCounted-add :
    (v : Voucher) (d c : ℤ) (gs : List Group) → IsCounted gs → IsCounted (add_voucher v d c gs)
unfolding add_voucher IsCounted
IsCounted-add v d c [] h = (omega arith, tt)
IsCounted-add v d c (g ∷ gs) h = elim (Bool-cases (g.disposition == v.disposition)) [
  | inl e ↦ rw e (omega (arith, h.0, length-append g.voucher_ids (v.id ∷ [])), h.1)
  | inr e ↦ rw e (h.0, IsCounted-add v d c gs h.1)
]

IsCounted-from :
    (gs : List Group) (vs : List Voucher) {r : List Group}
    → IsCounted gs
    → group_from gs vs ≡ ok r
    → IsCounted r
unfolding steps group_from
IsCounted-from gs [] k h = rw (← ok-injective h) k
IsCounted-from gs (v ∷ vs) k h =
    let (d, p, h1) = bind-eq-ok (debit_of v) _ h in
    let (c, q, h2) = bind-eq-ok (credit_of v) _ h1 in
    IsCounted-from (add_voucher v d c gs) vs (IsCounted-add v d c gs k) h2

count_in-ids :
    (k : Disposition) (gs : List Group) → IsCounted gs → count_in k gs ≡ length (ids_in k gs)
unfolding IsCounted
count_in-ids k [] h = refl
count_in-ids k (g ∷ gs) h = elim (Bool-cases (g.disposition == k)) [
  | inl e ↦ rw e h.0
  | inr e ↦ rw e (count_in-ids k gs h.1)
]

-- Each disposition's group holds exactly the vouchers of that disposition, in their order, and counts
-- them.
pub grouped_by_disposition :
    (k : Disposition) (vs : List Voucher) {gs : List Group}
    → group_from [] vs ≡ ok gs
    → (ids_in k gs ≡ map (λ v. v.id) (filter (λ v. v.disposition == k) vs))
      × (count_in k gs ≡ length (map (λ v. v.id) (filter (λ v. v.disposition == k) vs)))
unfolding IsCounted
grouped_by_disposition k vs {gs} h =
    let ids = ids_all k [] vs h in
    (ids, count_in-ids k gs (IsCounted-from [] vs tt h) ∙ ap length ids)

-- What holds of a bridge that was computed.
computed_partition :
    (vs : List Voucher) (b : Bridge)
    → compute_bridge vs ≡ ok b
    → (b.ties ≡ true)
      × ((k : Disposition)
          → ids_in k b.by_disposition ≡ map (λ v. v.id) (filter (λ v. v.disposition == k) vs))
      × (b.pending_count
          ≡ length (map (λ v. v.id) (filter (λ v. v.disposition == Disposition.pending) vs)))
unfolding compute_bridge
computed_partition vs b h =
    let (gs, p, h1) = bind-eq-ok (group_from [] vs) _ h in
    let (d, q, h2) = bind-eq-ok (sum_of debit_of vs) _ h1 in
    let (c, r, h3) = bind-eq-ok (sum_of credit_of vs) _ h2 in
    let (leaked, s, h4) = bind-eq-ok (filter_ok is_leaked vs) _ h3 in
    let made = ok-injective h4 in
    let (counts, debits, credits) = totals_agree vs p q r in
    (
      sym (ap (λ x. x.ties) made) ∙ (ground (arith, counts, debits, credits)),
      λ k. sym (ap (λ x. ids_in k x.by_disposition) made) ∙ (grouped_by_disposition k vs p).0,
      sym (ap (λ x. x.pending_count) made) ∙ (grouped_by_disposition Disposition.pending vs p).1,
    )

-- Where every amount of a run's vouchers is read, the debits as `ds` and the credits as `cs`: the bridge
-- is computed, its totals are theirs, and it ties: the counts, debits and credits of its groups sum to
-- those of the vouchers. The group of each disposition holds the ids of exactly the vouchers of that
-- disposition, in order, and the pending count is how many there are.
pub bridge_is_partition :
    (vs : List Voucher) (ds cs : List ℤ)
    → map_ok debit_of vs ≡ ok ds
    → map_ok credit_of vs ≡ ok cs
    → (b : Bridge) × (compute_bridge vs ≡ ok b)
      × (b.debit ≡ total ds)
      × (b.credit ≡ total cs)
      × (b.ties ≡ true)
      × ((k : Disposition)
          → ids_in k b.by_disposition ≡ map (λ v. v.id) (filter (λ v. v.disposition == k) vs))
      × (b.pending_count
          ≡ length (map (λ v. v.id) (filter (λ v. v.disposition == Disposition.pending) vs)))
bridge_is_partition vs ds cs h k =
    let (b, p, d, c) = bridge_computed vs ds cs h k in
    let (ties, ids, pending) = computed_partition vs b p in (b, p, d, c, ties, ids, pending)
