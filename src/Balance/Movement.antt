-- ===== src/Balance/Movement.antt =====
-- `migrationMovementByAccount` of src/core/balance_bridge.js: what the postings of a batch moved, and
-- that it nets to nothing.
use eco_green_zoho_migration.Base.{
  Text, Bool, ◌&&◌, Option, none, some, List, [], ◌∷◌, filter, find, if◌then◌else◌, truthy,
  or_empty, ◌==◌, nat_Eq, text_Eq, option_text_Eq, ℤ, pos, ◌+ℤ◌, ◌-ℤ◌,
}
use eco_green_zoho_migration.Errors.{Result, ok}
use eco_green_zoho_migration.States.{QueueState, QueueState_Eq}
use eco_green_zoho_migration.Store.{Store, Voucher, QueueItem, PreviewPayload}
use eco_green_zoho_migration.Fallible.{steps, ◌>>=◌}
use eco_green_zoho_migration.Transform.Payload.{Payload}
use eco_green_zoho_migration.Transform.Effects.{Effect, gl_effects, debit_of, credit_of}

-- A map from account ids to net amounts; an effect without an account has the key `undefined`.
abbrev pub Movements : Type 0
Movements = List (Option Text × ℤ)

-- `addToMap`
unfoldable pub add_to_map : Option Text → ℤ → Movements → Movements
add_to_map id n [] = (id, pos 0 +ℤ n) ∷ []
add_to_map id n (e ∷ es) = if e.0 == id then (id, e.1 +ℤ n) ∷ es else e ∷ add_to_map id n es

unfoldable pub add_effects : Movements → List Effect → Result Movements
unfolding steps
add_effects moved [] = ok moved
add_effects moved (e ∷ es) = do
  debit ← debit_of e
  credit ← credit_of e
  add_effects (add_to_map e.account_id (debit -ℤ credit) moved) es

-- The payload row that was built for a voucher: its `uk` is the id and the two versions.
abbrev pub payload_row_of : Store → Voucher → Option PreviewPayload
payload_row_of s v =
    find
      (λ p.
        p.voucher_id == v.id
        && p.transformation_version == or_empty v.transformation_version
        && p.mapping_version == or_empty v.mapping_version)
      s.preview_payloads

abbrev pub is_stamped : Voucher → Bool
is_stamped v = truthy v.target_module && truthy v.transformation_version && truthy v.mapping_version

-- What the posting of one item moved; an item without a stamped voucher and its payload is passed over.
-- `parse` is `JSON.parse`, of the text that was stored.
unfoldable pub add_payload :
    (parse : Text → Payload) → Movements → Voucher → Option PreviewPayload → Result Movements
unfolding steps
add_payload parse moved v none = ok moved
add_payload parse moved v (some row) =
    gl_effects (or_empty v.target_module) (parse row.payload_json) >>= λ es. add_effects moved es

unfoldable pub add_item :
    (parse : Text → Payload) → Store → Movements → Option Voucher → Result Movements
add_item parse s moved none = ok moved
add_item parse s moved (some v) =
    if is_stamped v then add_payload parse moved v (payload_row_of s v) else ok moved

unfoldable pub add_items :
    (parse : Text → Payload) → Store → Movements → List QueueItem → Result Movements
unfolding steps
add_items parse s moved [] = ok moved
add_items parse s moved (i ∷ is) =
    add_item parse s moved (find (λ v. v.id == i.voucher_id) s.vouchers) >>= λ more.
    add_items parse s more is

abbrev pub posted_items : Store → (batch_id : Text) → List QueueItem
posted_items s batch_id =
    filter (λ i. i.batch_id == batch_id && i.status == QueueState.posted) s.queue_items.rows

unfoldable pub migration_movement :
    (parse : Text → Payload) → Store → (batch_id : Text) → Result Movements
migration_movement parse s batch_id = add_items parse s [] (posted_items s batch_id)

-- All accounts together.
abbrev pub net_of : Movements → ℤ
net_of [] = pos 0
net_of (e ∷ es) = e.1 +ℤ net_of es
