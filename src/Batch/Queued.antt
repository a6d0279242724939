-- ===== src/Batch/Queued.antt =====
-- What `enqueueBatch` puts into the queue.
use eco_green_zoho_migration.Base.{
  suc, ◌+◌, ◌≡◌, ◌≢◌, inl, inr, refl, sym, ℤ, pos, Text, Bool, true, false, some, List, [], ◌∷◌,
  ◌++◌, length, find, filter, exists, All, arith, ◌==◌, text_Eq, text_eq_iff, Bool-cases,
  Option-cases, truthy,
}
use mathlib.Core.Path.{subst}
use eco_green_zoho_migration.Errors.{Result, ok, err}
use eco_green_zoho_migration.States.{BatchState, BatchState_Eq, batch_transitions, allows}
use eco_green_zoho_migration.Store.{
  Store, Table, Action, ◌>>=◌, pure, continue, QueueItem, Voucher, Batch, append_row, update_rows,
  insert_item, calls,
}
use eco_green_zoho_migration.Audit.{Context, emit}
use eco_green_zoho_migration.Batch.Scope.{
  ScopeKey, Scope, ScopeOf, compute_scope, scope_over, sum_money, is_in_scope,
}
use eco_green_zoho_migration.Batch.Approving.{own_scope, or_batch}
use eco_green_zoho_migration.Batch.Enqueuing.{
  Counts, counted, new_item, enqueue_voucher, enqueue_vouchers, mark_queued, enqueue_batch,
}

-- No two items of the queue have one idempotency key.
abbrev pub IsQueue : List QueueItem → Type 0
IsQueue [] = Unit
IsQueue (i ∷ is) = All (λ (j : QueueItem). i.idempotency_key ≢ j.idempotency_key) is × IsQueue is

abbrev pub has_item : Text → List QueueItem → Bool
has_item k is = exists (λ i. i.idempotency_key == k) is

has_item-append :
    (k : Text) (is : List QueueItem) (i : QueueItem)
    → has_item k is ≡ true
    → has_item k (is ++ i ∷ []) ≡ true
has_item-append k [] i h = ground arith
has_item-append k (j ∷ is) i h = ground (arith, has_item-append k is i)

has_item_self :
    (is : List QueueItem) (i : QueueItem) → has_item i.idempotency_key (is ++ i ∷ []) ≡ true
has_item_self [] i =
    let (to, from) = text_eq_iff i.idempotency_key i.idempotency_key in ground (arith, from refl)
has_item_self (j ∷ is) i = ground (arith, has_item_self is i)

apart :
    (is : List QueueItem) (j i : QueueItem)
    → All (λ (q : QueueItem). j.idempotency_key ≢ q.idempotency_key) is
    → j.idempotency_key ≢ i.idempotency_key
    → All (λ (q : QueueItem). j.idempotency_key ≢ q.idempotency_key) (is ++ i ∷ [])
apart [] j i a n = (n, tt)
apart (q ∷ is) j i (p, a) n = (p, apart is j i a n)

IsQueue-append :
    (is : List QueueItem) (i : QueueItem)
    → IsQueue is
    → has_item i.idempotency_key is ≡ false
    → IsQueue (is ++ i ∷ [])
IsQueue-append [] i h free = (tt, tt)
IsQueue-append (j ∷ is) i (a, h) free =
    let (to, from) = text_eq_iff j.idempotency_key i.idempotency_key in
    (apart is j i a (λ e. ground (arith, from e)), IsQueue-append is i h (ground arith))

-- What adding vouchers to the queue has done to it.
record Queues (before : Store) (vs : List Voucher) (n m : Counts) (after : Store) : Type 0 where
  queue : IsQueue after.queue_items.rows
  grown :
      (k : Text)
      → has_item k before.queue_items.rows ≡ true
      → has_item k after.queue_items.rows ≡ true
  all_there : All (λ v. has_item v.source_transaction_hash after.queue_items.rows ≡ true) vs
  total : m.enqueued + m.skipped_existing ≡ n.enqueued + n.skipped_existing + length vs

only_vouchers :
    {B : Type 0} (digest other : ScopeKey → Text) (q : ScopeOf) (f : List Voucher → Action B)
    (s : Store)
    → (compute_scope digest q >>= λ sc. f sc.vouchers) s
      ≡ (compute_scope other q >>= λ sc. f sc.vouchers) s
unfolding compute_scope calls
only_vouchers digest other q f s =
    by_totals (sum_money (pos 0) (pos 0) (filter (is_in_scope q) s.vouchers) s)
  where
    vs : List Voucher
    vs = filter (is_in_scope q) s.vouchers

    by_totals :
        (r : Result (ℤ × ℤ) × Store)
        → continue (continue r (λ totals. pure (scope_over digest vs totals))) (λ sc. f sc.vouchers)
          ≡ continue
              (continue r (λ totals. pure (scope_over other vs totals)))
              (λ sc. f sc.vouchers)
    by_totals (ok totals, t) = refl
    by_totals (err e, t) = refl

module _ (ctx : Context) (batch_id : Text) where
  one_voucher :
      (v : Voucher) (s : Store)
      → IsQueue s.queue_items.rows
      → (new : Bool) × (t : Store) × (enqueue_voucher ctx batch_id v s ≡ (ok new, t))
        × IsQueue t.queue_items.rows
        × ((k : Text) → has_item k s.queue_items.rows ≡ true → has_item k t.queue_items.rows ≡ true)
        × (has_item v.source_transaction_hash t.queue_items.rows ≡ true)
  unfolding enqueue_voucher insert_item new_item calls
  one_voucher v s q = elim (Bool-cases (has_item v.source_transaction_hash s.queue_items.rows)) [
    | inl taken ↦ (false, s, ground arith, q, λ k h. h, taken)
    | inr free ↦ (
      true,
      record s { queue_items = append_row (new_item ctx batch_id v) s.queue_items },
      ground arith,
      IsQueue-append s.queue_items.rows (new_item ctx batch_id v (suc s.queue_items.last)) q free,
      λ k h. has_item-append k s.queue_items.rows _ h,
      has_item_self s.queue_items.rows (new_item ctx batch_id v (suc s.queue_items.last)),
    )
  ]

  all_vouchers :
      (vs : List Voucher) (n : Counts) (s : Store)
      → IsQueue s.queue_items.rows
      → (m : Counts) × (t : Store) × (enqueue_vouchers ctx batch_id n vs s ≡ (ok m, t))
        × Queues s vs n m t
  unfolding enqueue_vouchers calls
  all_vouchers [] n s q =
      (n, s, refl, record { queue = q; grown = λ k h. h; all_there = tt; total = omega arith })
  all_vouchers (v ∷ vs) n s q =
      let (new, s1, e, q1, grown, there) = one_voucher v s q in
      let (m, t, e', is) = all_vouchers vs (counted n new) s1 q1 in
      (
        m,
        t,
        ground arith,
        record {
          queue = is.queue;
          grown = λ k h. is.grown k (grown k h);
          all_there = (is.grown v.source_transaction_hash there, is.all_there);
          total = elim (Bool-cases new) [
            | inl y ↦ (let w = is.total in ground arith)
            | inr y ↦ (let w = is.total in ground arith)
          ];
        },
      )

  marked :
      (b : Batch) (n : Counts) (s : Store)
      → truthy ctx.correlation_id ≡ true
      → truthy ctx.actor ≡ true
      → (r : Batch) × (t : Store) × (mark_queued ctx batch_id b n s ≡ (ok (r, n), t))
        × (t.queue_items ≡ s.queue_items)
  unfolding mark_queued emit calls
  marked b n s k a = elim (Option-cases ctx.actor) [
    | inl none_given ↦ absurd (ground arith)
    | inr (actor, given) ↦ (
      or_batch
          (find (λ c. c.id == batch_id)
            (update_rows (λ c. c.id == batch_id)
              (λ c. record c { status = BatchState.queued; updated_at = ctx.now })
              s.migration_batches))
          b,
      (mark_queued ctx batch_id b n s).1,
      ground arith,
      ground arith,
    )
  ]

  -- Let the batch be APPROVED, its scope computed, and the context name an actor and a correlation
  -- id. Then `enqueueBatch` succeeds; it counts each voucher of the scope once, as enqueued or
  -- skipped; each of them has an item in the queue afterwards; and no two items have one idempotency key, if
  -- none had before.
  pub enqueued_once :
      (digest : ScopeKey → Text) (s : Store) (b : Batch) (sc : Scope)
      → find (λ c. c.id == batch_id) s.migration_batches ≡ some b
      → b.status ≡ BatchState.approved
      → compute_scope digest (own_scope b) s ≡ (ok sc, s)
      → truthy ctx.correlation_id ≡ true
      → truthy ctx.actor ≡ true
      → IsQueue s.queue_items.rows
      → (r : Batch) × (m : Counts) × (t : Store) × (enqueue_batch digest ctx batch_id s
          ≡ (ok (r, m), t))
        × (m.enqueued + m.skipped_existing ≡ length sc.vouchers)
        × All (λ v. has_item v.source_transaction_hash t.queue_items.rows ≡ true) sc.vouchers
        × IsQueue t.queue_items.rows
  unfolding enqueue_batch batch_transitions calls
  enqueued_once digest s b sc found approved computed k a q =
      let (m, t, e, is) =
        all_vouchers sc.vouchers (record { enqueued = 0; skipped_existing = 0 }) s q in
      let (r, u, e', same) = marked b m t k a in
      (
        r,
        m,
        u,
        ground arith,
        omega (arith, is.total),
        subst
            (λ (i : Table QueueItem).
              All (λ v. has_item v.source_transaction_hash i.rows ≡ true) sc.vouchers)
            (sym same) is.all_there,
        subst (λ (i : Table QueueItem). IsQueue i.rows) (sym same) is.queue,
      )

  -- What `enqueueBatch` does is the same whatever the hash of the scope is: it never compares the
  -- scope that it queues with the one that was approved.
  pub enqueue_checks_no_scope :
      (digest other : ScopeKey → Text) (s : Store)
      → enqueue_batch digest ctx batch_id s ≡ enqueue_batch other ctx batch_id s
  unfolding enqueue_batch calls
  enqueue_checks_no_scope digest other s =
      elim (Option-cases (find (λ c. c.id == batch_id) s.migration_batches)) [
        | inl missing ↦ ground arith
        | inr (b, found) ↦
            let same =
              only_vouchers digest other (own_scope b)
                (λ vs.
                  enqueue_vouchers ctx batch_id (record { enqueued = 0; skipped_existing = 0 }) vs
                  >>= λ n. mark_queued ctx batch_id b n)
                s in
            elim (Bool-cases (allows batch_transitions b.status BatchState.queued)) [
              | inl allowed ↦ ground arith
              | inr refused ↦ ground arith
            ]
      ]
