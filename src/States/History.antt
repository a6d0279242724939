-- ===== src/States/History.antt =====
-- Histories of legal transitions, as `assertTransition` of states.js lets them through.
use eco_green_zoho_migration.Base.{
  ◌≡◌, refl, Bool, true, false, List, [], ◌∷◌, arith, Eq, includes, inl, inr, ◌⊎◌,
}
use eco_green_zoho_migration.States.Tables.{BatchState, BatchState_Eq, batch_transitions, allows}

-- A legal history from a state: the last state, and all the states on the way, the last one first.
module _ {S : Type 0} ⦃e : Eq S⦄ (table : S → List S) where
  pub data History (s : S) : S → List S → Type 0 where
    start : History s s (s ∷ [])
    step :
        {t : S} {seen : List S}
        → History s t seen
        → (u : S) → allows table t u ≡ true
        → History s u (u ∷ seen)

-- The states in which a batch's vouchers may be queued or posted, or have been.
abbrev pub is_released : BatchState → Bool
is_released BatchState.queued = true
is_released BatchState.migrating = true
is_released BatchState.paused = true
is_released BatchState.partially_migrated = true
is_released BatchState.migrated = true
is_released BatchState.post_reconciliation = true
is_released BatchState.reconciliation_failed = true
is_released BatchState.signed_off = true
is_released _ = false

-- The only way into the released states leads through `approved`.
enters_released :
    (s t : BatchState)
    → allows batch_transitions s t ≡ true
    → is_released t ≡ true
    → (is_released s ≡ true) ⊎ (s ≡ BatchState.approved)
unfolding batch_transitions
enters_released BatchState.draft t h r = ground arith
enters_released _ t h r = ground arith

includes_head : (s : BatchState) (seen : List BatchState) → includes (s ∷ seen) s ≡ true
includes_head BatchState.draft seen = refl
includes_head _ seen = refl

-- The last state of a history is its head.
History-head :
    {s t : BatchState} {seen : List BatchState}
    → History batch_transitions s t seen
    → includes seen t ≡ true
History-head {s} start = includes_head s []
History-head (step {seen = seen} h u a) = includes_head u seen

-- A legal history of a batch that begins in a state that is not released and ends in a released
-- one (queued, migrating, paused, migrated, signed off and so on) has passed through `approved`.
pub released_was_approved :
    {s t : BatchState} {seen : List BatchState}
    → History batch_transitions s t seen
    → is_released s ≡ false
    → is_released t ≡ true
    → includes seen BatchState.approved ≡ true
released_was_approved start fresh r = cc
released_was_approved (step {t = t} {seen = seen} h u a) fresh r = elim (enters_released t u a r) [
  | inl already ↦ ground (arith, released_was_approved h fresh already)
  | inr approved ↦ ground (arith, approved_seen h approved)
]
  where
    approved_seen :
        {s t : BatchState} {seen : List BatchState}
        → History batch_transitions s t seen
        → t ≡ BatchState.approved
        → includes seen BatchState.approved ≡ true
    approved_seen {seen = seen} g p = rw p at (History-head g)
