-- ===== src/Executor/Claims.antt =====
-- The claim of a queue item: of two workers, one holds it until its claim runs out.
use eco_green_zoho_migration.Base.{
  ℕ, ◌≡◌, ◌≢◌, refl, Text, Bool, false, ◌&&◌, none, some, List, [], ◌∷◌, All, find, arith, text_lt,
  nat_Eq, Bool-cases, Option-cases, inl, inr,
}
use eco_green_zoho_migration.Errors.{ok}
use eco_green_zoho_migration.States.{QueueState, QueueState_Eq, BatchState_Eq}
use eco_green_zoho_migration.Store.{
  Store, QueueItem, update_rows, claim, can_claim, claimed_row, has_id, calls,
}

-- No two items have one id, the primary key.
abbrev pub HasDistinctIds : List QueueItem → Type 0
HasDistinctIds [] = Unit
HasDistinctIds (i ∷ is) = All (λ (j : QueueItem). i.id ≢ j.id) is × HasDistinctIds is

module _ (id : ℕ) (worker other : Text) (now later expires : Text)
    (expected second : QueueState) where
  abbrev takes : QueueItem → Bool
  takes i = has_id id i && can_claim expected now i

  abbrev takes_later : QueueItem → Bool
  takes_later i = has_id id i && can_claim second later i

  none_elsewhere :
      (j : QueueItem) (is : List QueueItem)
      → j.id ≡ id
      → All (λ (q : QueueItem). j.id ≢ q.id) is
      → (find takes is ≡ none)
        × (find takes_later (update_rows takes (claimed_row worker now expires) is) ≡ none)
  none_elsewhere j [] e a = (refl, refl)
  none_elsewhere j (q ∷ is) e (n, a) =
      let (x, y) = none_elsewhere j is e a in
      let (to, from) = nat_Eq.same_iff q.id id in (ground arith, ground arith)

  still_held :
      (i : QueueItem) (is : List QueueItem)
      → HasDistinctIds is
      → text_lt expires later ≡ false
      → find takes is ≡ some i
      → find takes_later (update_rows takes (claimed_row worker now expires) is) ≡ none
  still_held i [] d fresh h = absurd (ground arith)
  still_held i (q ∷ is) (a, d) fresh h =
      let (to, from) = nat_Eq.same_iff q.id id in
      elim (Bool-cases (has_id id q)) [
        | inl same ↦ (let (x, y) = none_elsewhere q is (to same) a in ground arith)
        | inr differs ↦ (let rest = still_held i is d fresh (ground arith) in ground arith)
      ]

  -- Where the ids of the queue are distinct: once a worker has claimed an item, a claim by any
  -- worker, whatever status it expects, gets nothing until the first claim has run out.
  pub claim_is_exclusive :
      (s t : Store) (i : QueueItem)
      → HasDistinctIds s.queue_items.rows
      → text_lt expires later ≡ false
      → claim worker now expires expected id s ≡ (ok (some i), t)
      → (until : Text) → (claim other later until second id t).0 ≡ ok none
  unfolding claim calls
  claim_is_exclusive s t i d fresh h until = elim (Option-cases (find takes s.queue_items.rows)) [
    | inl free ↦ absurd (ground arith)
    | inr (j, found) ↦ let held = still_held j s.queue_items.rows d fresh found in ground arith
  ]
