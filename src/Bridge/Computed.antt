-- ===== src/Bridge/Computed.antt =====
-- `computeBridge` throws only where an amount of a voucher cannot be read.
use eco_green_zoho_migration.Base.{◌≡◌, refl, List, [], ◌∷◌, ℤ}
use eco_green_zoho_migration.Errors.{ok}
use eco_green_zoho_migration.Store.Rows.{Voucher}
use eco_green_zoho_migration.Fallible.{steps, map_ok, filter_ok}
use eco_green_zoho_migration.Fallible.Sums.{map_ok-split, sum_of-total, total, bind-ok}
use eco_green_zoho_migration.Bridge.{
  Group, add_voucher, debit_of, credit_of, group_from, Bridge, compute_bridge, is_leaked,
}

groups_computed :
    (gs : List Group) (vs : List Voucher) (ds cs : List ℤ)
    → map_ok debit_of vs ≡ ok ds
    → map_ok credit_of vs ≡ ok cs
    → (r : List Group) × (group_from gs vs ≡ ok r)
unfolding steps group_from
groups_computed gs [] ds cs h k = (gs, refl)
groups_computed gs (v ∷ vs) ds cs h k =
    let (d, ds', p, q, e) = map_ok-split debit_of v vs h in
    let (c, cs', p', q', e') = map_ok-split credit_of v vs k in
    let (r, s) = groups_computed (add_voucher v d c gs) vs ds' cs' q q' in (r, rw p (rw p' s))

leaks_computed :
    (vs : List Voucher) (ds cs : List ℤ)
    → map_ok debit_of vs ≡ ok ds
    → map_ok credit_of vs ≡ ok cs
    → (leaked : List Voucher) × (filter_ok is_leaked vs ≡ ok leaked)
unfolding steps is_leaked filter_ok
leaks_computed [] ds cs h k = ([], refl)
leaks_computed (v ∷ vs) ds cs h k =
    let (d, ds', p, q, e) = map_ok-split debit_of v vs h in
    let (c, cs', p', q', e') = map_ok-split credit_of v vs k in
    let (leaked, s) = leaks_computed vs ds' cs' q q' in
    (_, bind-ok _ (bind-ok _ p (bind-ok _ p' refl)) (bind-ok _ s refl))

pub bridge_computed :
    (vs : List Voucher) (ds cs : List ℤ)
    → map_ok debit_of vs ≡ ok ds
    → map_ok credit_of vs ≡ ok cs
    → (b : Bridge) × (compute_bridge vs ≡ ok b) × (b.debit ≡ total ds) × (b.credit ≡ total cs)
unfolding steps compute_bridge
bridge_computed vs ds cs h k =
    let (gs, p) = groups_computed [] vs ds cs h k in
    let (leaked, q) = leaks_computed vs ds cs h k in
    let d = sum_of-total debit_of vs ds h in
    let c = sum_of-total credit_of vs cs k in
    (_, bind-ok _ p (bind-ok _ d (bind-ok _ c (bind-ok _ q refl))), refl, refl)
