-- ===== src/Executor/Posting.antt =====
-- What the executor does to the outside, and to the batch.
use eco_green_zoho_migration.Exceptions.Apart.{raise-rest}
use eco_green_zoho_migration.Exceptions.{Condition, raise}
use eco_green_zoho_migration.Store.Logic.{
  Keeps, Keeps-bind, Keeps-then, Keeps-guard, Keeps-pure, Keeps-gets, Keeps-modify,
}
use eco_green_zoho_migration.Base.{
  ◌≡◌, ◌≢◌, ◌↔◌, refl, Text, text, true, some, List, [], ◌∷◌, every, arith, ◌==◌, text_Eq,
  text_eq_iff, Option-cases, inl, inr, nat_Eq, ap, ◌∙◌, Option, none, ℕ,
}
use eco_green_zoho_migration.Errors.{Error, err, Result, ok}
use eco_green_zoho_migration.States.{
  BatchState, QueueState, BatchState_Eq, QueueState_Eq, batch_transitions,
}
use eco_green_zoho_migration.Store.{
  Store, QueueItem, PreviewPayload, Voucher, Request, Action, lift, chains, ◌>>◌, ApiAttempt,
  insert_attempt, release_claim, update_item, update_voucher, get_voucher,
}
use eco_green_zoho_migration.Audit.{Context}
use eco_green_zoho_migration.Books.Guard.{assert_posting_allowed, not_given}
use eco_green_zoho_migration.Executor.Client.{Client, assert_client_posting_allowed}
use eco_green_zoho_migration.Executor.Outcome.{Work}
use eco_green_zoho_migration.Executor.Processing.{
  process_item, post, by_payload, by_voucher, without_payload,
}
use eco_green_zoho_migration.Executor.Slice.{target_status, suggested}

-- A batch is moved to MIGRATED exactly when it is MIGRATING, has items, and all of them are posted: a
-- batch that is PARTIALLY_MIGRATED stays so even when its last item has been posted.
pub migrated_iff :
    (current : BatchState) (items : List QueueItem)
    → (target_status current items ≡ some BatchState.migrated) ↔ (
        (current ≡ BatchState.migrating)
        × (items ≢ [])
        × (every (λ i. i.status == QueueState.posted) items ≡ true))
unfolding target_status suggested batch_transitions
migrated_iff current [] = (λ h. ground arith, λ h. ground arith)
migrated_iff current (i ∷ is) = (λ h. ground arith, λ h. ground arith)

refused_lem :
    (client : Client) (e : Error)
    → client.driver ≡ text "live"
    → assert_posting_allowed (some client.config) not_given ≡ err e
    → assert_client_posting_allowed client ≡ err e
unfolding assert_client_posting_allowed
refused_lem client e live refused =
    let (to, from) = text_eq_iff client.driver (text "live") in ground arith

-- What has been asked of Zoho Books.
abbrev Asked : List Request → Store → Type 0
Asked rs s = s.requests ≡ rs

raise-Asked : (rs : List Request) (ctx : Context) (c : Condition) → Keeps (Asked rs) (raise ctx c)
raise-Asked rs ctx c = record {
  kept = λ s h. ap (λ (x : Store). x.requests) (raise-rest ctx c s) ∙ h;
}

without_payload-Asked :
    (rs : List Request) (ctx : Context) (w : Work) (v : Option Voucher) (message : Text)
    → Keeps (Asked rs) (without_payload ctx w v message)
unfolding without_payload release_claim update_item
without_payload-Asked rs ctx w v message = Keeps-then (Keeps-modify _ (λ s h. h)) (
    Keeps-then (Keeps-modify _ (λ s h. h))
      (Keeps-bind (raise-Asked rs ctx _) (λ raised. Keeps-pure _)))

insert_attempt-Asked :
    (rs : List Request) (new : ℕ → ApiAttempt) → Keeps (Asked rs) (insert_attempt new)
unfolding insert_attempt
insert_attempt-Asked rs new =
    Keeps-bind (Keeps-gets _)
      λ taken. Keeps-guard _ _ λ _. Keeps-then (Keeps-modify _ (λ s h. h)) (Keeps-gets _)

Keeps-refused {ℓ} :
    {A : Type ℓ} {P : Store → Type 0} (r : Result (Unit {0})) (e : Error) (rest : Action A)
    → r ≡ err e
    → Keeps P (lift r >> rest)
unfolding chains
Keeps-refused (ok u) e rest h = absurd cc
Keeps-refused (err x) e rest h = record { kept = λ s p. p }

post-Asked :
    (rs : List Request) (ctx : Context) (client : Client) (w : Work) (v : Voucher)
    (p : PreviewPayload) (e : Error)
    → assert_client_posting_allowed client ≡ err e
    → Keeps (Asked rs) (post ctx client w v p)
unfolding post update_voucher
post-Asked rs ctx client w v p e refused = Keeps-then (Keeps-modify _ (λ s h. h)) (
    Keeps-bind (insert_attempt-Asked rs _)
      (λ attempt. Keeps-refused (assert_client_posting_allowed client) e _ refused))

payload-Asked :
    (rs : List Request) (ctx : Context) (client : Client) (w : Work) (v : Voucher) (e : Error)
    (p : Option PreviewPayload)
    → assert_client_posting_allowed client ≡ err e
    → Keeps (Asked rs) (by_payload ctx client w v p)
payload-Asked rs ctx client w v e none refused = without_payload-Asked rs ctx w (some v) _
payload-Asked rs ctx client w v e (some p) refused =
    elim (Option-cases (client.json_error p.payload_json)) [
      | inl reads ↦ rw reads (post-Asked rs ctx client w v p e refused)
      | inr (message, fails) ↦ rw fails (without_payload-Asked rs ctx w (some v) message)
    ]

voucher-Asked :
    (rs : List Request) (ctx : Context) (client : Client) (w : Work) (e : Error)
    (v : Option Voucher)
    → assert_client_posting_allowed client ≡ err e
    → Keeps (Asked rs) (by_voucher ctx client w v)
voucher-Asked rs ctx client w e none refused = without_payload-Asked rs ctx w none _
voucher-Asked rs ctx client w e (some v) refused =
    Keeps-bind (Keeps-gets _) (λ p. payload-Asked rs ctx client w v e p refused)

-- Where the guard refuses to post with a live client, processing an item sends no request to Zoho
-- Books, whether it succeeds or throws: the requests that have gone out are the same as before.
pub refused_never_creates :
    (ctx : Context) (client : Client) (w : Work) (e : Error) (s : Store)
    → client.driver ≡ text "live"
    → assert_posting_allowed (some client.config) not_given ≡ err e
    → (process_item ctx client w s).1.requests ≡ s.requests
unfolding process_item get_voucher
refused_never_creates ctx client w e s live refused =
    (Keeps-bind {P = Asked s.requests} (Keeps-gets _)
        (λ v. voucher-Asked s.requests ctx client w e v (refused_lem client e live refused))).kept
      s refl
