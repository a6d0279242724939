-- ===== src/Balance/Nets.antt =====
-- The movement of a batch over all its accounts.
use eco_green_zoho_migration.Base.{
  Text, ◌≡◌, refl, sym, ap, ◌∙◌, Option, none, some, List, [], ◌∷◌, find, or_empty, ◌==◌, nat_Eq,
  text_Eq, option_text_Eq, Bool-cases, inl, inr, ℤ, pos, ◌+ℤ◌, ◌-ℤ◌, All,
}
use eco_green_zoho_migration.Errors.{ok}
use eco_green_zoho_migration.States.{QueueState_Eq}
use eco_green_zoho_migration.Store.{Store, Voucher, QueueItem, PreviewPayload}
use eco_green_zoho_migration.Fallible.{steps, map_ok}
use eco_green_zoho_migration.Fallible.Sums.{
  bind-eq-ok, ok-injective, +ℤ_assoc, +ℤ_shift, +ℤ_zero, net_step, +ℤ_cancel, total, map_ok-cons,
  sum_of-eq-ok, bind-ok, map_ok-split,
}
use eco_green_zoho_migration.Transform.Payload.{Payload}
use eco_green_zoho_migration.Transform.Effects.{Effect, gl_effects, debit_of, credit_of}
use eco_green_zoho_migration.Transform.Balanced.{Moves}
use eco_green_zoho_migration.Transform.Refused.{effects_balance}
use eco_green_zoho_migration.Balance.Movement.{
  Movements, add_to_map, add_effects, payload_row_of, is_stamped, add_payload, add_item, add_items,
  posted_items, migration_movement, net_of,
}

net_of-add :
    (id : Option Text) (n : ℤ) (moved : Movements)
    → net_of (add_to_map id n moved) ≡ net_of moved +ℤ n
unfolding add_to_map
net_of-add id n [] = +ℤ_zero (pos 0 +ℤ n)
net_of-add id n (e ∷ es) = elim (Bool-cases (e.0 == id)) [
  | inl h ↦ rw h (+ℤ_shift e.1 n (net_of es))
  | inr h ↦ rw h (ap (λ x. e.1 +ℤ x) (net_of-add id n es) ∙ sym (+ℤ_assoc e.1 (net_of es) n))
]

-- The entries of one document move, over all accounts, their debits less their credits.
add_effects-net :
    (es : List Effect) (moved more : Movements)
    → add_effects moved es ≡ ok more
    → (ds : List ℤ) × (cs : List ℤ) × (map_ok debit_of es ≡ ok ds)
      × (map_ok credit_of es ≡ ok cs)
      × (net_of more +ℤ total cs ≡ net_of moved +ℤ total ds)
unfolding add_effects steps
add_effects-net [] moved more h =
    ([], [], refl, refl, ap (λ m. net_of m +ℤ pos 0) (sym (ok-injective h)))
add_effects-net (e ∷ es) moved more h =
    let (d, p, h1) = bind-eq-ok (debit_of e) _ h in
    let (c, q, h2) = bind-eq-ok (credit_of e) _ h1 in
    let (ds, cs, r, s, k) = add_effects-net es (add_to_map e.account_id (d -ℤ c) moved) more h2 in
    (
      d ∷ ds,
      c ∷ cs,
      map_ok-cons debit_of e es p r,
      map_ok-cons credit_of e es q s,
      net_step (net_of more) (net_of moved) d c (total ds) (total cs)
          (k ∙ ap (λ x. x +ℤ total ds) (net_of-add e.account_id (d -ℤ c) moved)),
    )

add_effects-kept :
    (es : List Effect) (moved more : Movements) (t : ℤ)
    → Moves es t t
    → add_effects moved es ≡ ok more
    → net_of more ≡ net_of moved
add_effects-kept es moved more t m h =
    let (ds, cs, p, q, k) = add_effects-net es moved more h in
    let (ds', p', e) = sum_of-eq-ok debit_of es m.0 in
    let (cs', q', f) = sum_of-eq-ok credit_of es m.1 in
    let debits : t ≡ total ds = e ∙ ap total (ok-injective (sym p' ∙ p)) in
    let credits : t ≡ total cs = f ∙ ap total (ok-injective (sym q' ∙ q)) in
    +ℤ_cancel (net_of more) (net_of moved) (total cs)
      (k ∙ ap (λ x. net_of moved +ℤ x) (sym debits ∙ credits))

add_item-kept :
    (parse : Text → Payload) (s : Store) (moved more : Movements) (v : Option Voucher)
    → add_item parse s moved v ≡ ok more
    → net_of more ≡ net_of moved
unfolding add_item add_payload
add_item-kept parse s moved more none h = ap net_of (sym (ok-injective h))
add_item-kept parse s moved more (some v) h = elim (Bool-cases (is_stamped v)) [
  | inl e ↦ kept (payload_row_of s v) (rw e at h)
  | inr e ↦ ap net_of (sym (ok-injective (rw e at h)))
]
  where
    kept :
        (row : Option PreviewPayload)
        → add_payload parse moved v row ≡ ok more
        → net_of more ≡ net_of moved
    kept none k = ap net_of (sym (ok-injective k))
    kept (some row) k =
        let (es, p, k1) =
          bind-eq-ok (gl_effects (or_empty v.target_module) (parse row.payload_json)) _ k in
        let (t, m) = effects_balance (or_empty v.target_module) (parse row.payload_json) es p in
        add_effects-kept es moved more t m k1

add_items-kept :
    (parse : Text → Payload) (s : Store) (items : List QueueItem) (moved more : Movements)
    → add_items parse s moved items ≡ ok more
    → net_of more ≡ net_of moved
unfolding add_items
add_items-kept parse s [] moved more h = ap net_of (sym (ok-injective h))
add_items-kept parse s (i ∷ is) moved more h =
    let (next, p, h1) =
      bind-eq-ok (add_item parse s moved (find (λ v. v.id == i.voucher_id) s.vouchers)) _ h in
    add_items-kept parse s is next more h1 ∙ add_item-kept parse s moved next _ p

add_effects_computed :
    (es : List Effect) (moved : Movements) (ds cs : List ℤ)
    → map_ok debit_of es ≡ ok ds
    → map_ok credit_of es ≡ ok cs
    → (more : Movements) × (add_effects moved es ≡ ok more)
unfolding add_effects steps
add_effects_computed [] moved ds cs h k = (moved, refl)
add_effects_computed (e ∷ es) moved ds cs h k =
    let (d, ds', p, q, x) = map_ok-split debit_of e es h in
    let (c, cs', p', q', y) = map_ok-split credit_of e es k in
    let (more, s) = add_effects_computed es (add_to_map e.account_id (d -ℤ c) moved) ds' cs' q q' in
    (more, bind-ok _ p (bind-ok _ p' s))

-- `glEffects` accepts the document that is stored for a voucher, if there is one.
abbrev pub IsAccepted : (parse : Text → Payload) → Store → Option Voucher → Type 0
IsAccepted parse s none = Unit {0}
IsAccepted parse s (some v) =
    (row : PreviewPayload)
    → payload_row_of s v ≡ some row
    → (es : List Effect) × (gl_effects (or_empty v.target_module) (parse row.payload_json) ≡ ok es)

add_item_computed :
    (parse : Text → Payload) (s : Store) (moved : Movements) (v : Option Voucher)
    → IsAccepted parse s v
    → (more : Movements) × (add_item parse s moved v ≡ ok more)
unfolding add_item add_payload
add_item_computed parse s moved none h = (moved, refl)
add_item_computed parse s moved (some v) h = elim (Bool-cases (is_stamped v)) [
  | inl e ↦ let (more, k) = stored (payload_row_of s v) h in (more, rw e k)
  | inr e ↦ (moved, rw e refl)
]
  where
    stored :
        (row : Option PreviewPayload)
        → ((r : PreviewPayload)
            → row ≡ some r
            → (es : List Effect) × (gl_effects (or_empty v.target_module) (parse r.payload_json)
                ≡ ok es))
        → (more : Movements) × (add_payload parse moved v row ≡ ok more)
    stored none k = (moved, refl)
    stored (some r) k =
        let (es, p) = k r refl in
        let (t, m) = effects_balance (or_empty v.target_module) (parse r.payload_json) es p in
        let (ds, x, x') = sum_of-eq-ok debit_of es m.0 in
        let (cs, y, y') = sum_of-eq-ok credit_of es m.1 in
        let (more, q) = add_effects_computed es moved ds cs x y in (more, bind-ok _ p q)

add_items_computed :
    (parse : Text → Payload) (s : Store) (items : List QueueItem) (moved : Movements)
    → All (λ i. IsAccepted parse s (find (λ v. v.id == i.voucher_id) s.vouchers)) items
    → (more : Movements) × (add_items parse s moved items ≡ ok more)
unfolding add_items
add_items_computed parse s [] moved h = (moved, refl)
add_items_computed parse s (i ∷ is) moved h =
    let (next, p) =
      add_item_computed parse s moved (find (λ v. v.id == i.voucher_id) s.vouchers) h.0 in
    let (more, q) = add_items_computed parse s is next h.1 in (more, bind-ok _ p q)

-- However payloads are parsed: where `glEffects` accepts the document that is stored for the voucher of
-- each posted item of the batch, the movement of a batch is derived, and it nets to zero over all its accounts.
pub movement_nets_to_zero :
    (parse : Text → Payload) (s : Store) (batch_id : Text)
    → All
        (λ i. IsAccepted parse s (find (λ v. v.id == i.voucher_id) s.vouchers))
        (posted_items s batch_id)
    → (moved : Movements) × (migration_movement parse s batch_id ≡ ok moved)
      × (net_of moved ≡ pos 0)
unfolding migration_movement
movement_nets_to_zero parse s batch_id h =
    let (moved, p) = add_items_computed parse s (posted_items s batch_id) [] h in
    (moved, p, add_items-kept parse s (posted_items s batch_id) [] moved p)
