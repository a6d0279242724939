-- ===== src/Store/Monad.antt =====
-- The store, and the calls that read and write it. What a call has written stays written when it
-- throws later: none of the modelled code runs in a transaction.
use eco_green_zoho_migration.Base.{ℕ, Text, Bool, true, false, Option, none, some, List, [], ◌∷◌}
use eco_green_zoho_migration.Errors.{Error, Result, ok, err}
use eco_green_zoho_migration.Cutover.{CutoverRule}
use eco_green_zoho_migration.Mapping.{MappingRule}
use eco_green_zoho_migration.Store.Rows.{
  Voucher, Batch, Approval, QueueItem, ApiAttempt, PreviewPayload, ReconRun, Assignment,
  ExceptionRow, AuditEvent, SourceLine, ExtractionRun, StoredSummary, OverlapCandidate,
}

-- A table whose id is an AUTOINCREMENT key: `last` is the largest id given so far.
pub record Table {ℓ} (R : Type ℓ) : Type ℓ where
  pub rows : List R
  pub last : ℕ

-- A request to create a record in Zoho Books.
pub record Request : Type 0 where
  pub target_module : Text
  pub payload_json : Text
  pub idempotency_key : Text

-- The tables; and `requests`, which is no table: what has gone out to Zoho Books so far, in order.
pub record Store : Type 0 where
  pub requests : List Request
  pub cutover_matrix : List CutoverRule
  pub mapping_rules : List MappingRule
  pub extraction_runs : List ExtractionRun
  pub source_txn_lines : List SourceLine
  pub summaries : List StoredSummary
  pub overlap_candidates : List OverlapCandidate
  pub vouchers : List Voucher
  pub migration_batches : List Batch
  pub approvals : List Approval
  pub queue_items : Table QueueItem
  pub api_attempts : Table ApiAttempt
  pub preview_payloads : List PreviewPayload
  pub recon_runs : List ReconRun
  pub assignments : Table Assignment
  pub exceptions : Table ExceptionRow
  pub audit_events : Table AuditEvent

abbrev pub Action {ℓ} : Type ℓ → Type ℓ
Action A = Store → Result A × Store

module _ {ℓ} {A : Type ℓ} where
  unfoldable pub pure : A → Action A
  pure a s = (ok a, s)

  unfoldable pub throw : Error → Action A
  throw e s = (err e, s)

  unfoldable pub gets : (Store → A) → Action A
  gets f s = (ok (f s), s)

  unfoldable pub lift : Result A → Action A
  lift r s = (r, s)

  unfoldable pub or_throw : Option A → Error → Action A
  or_throw none e = throw e
  or_throw (some a) e = pure a

-- A chain goes on from the outcome of its first step.
abbrev pub continue {ℓ κ} :
    {A : Type ℓ} {B : Type κ} → Result A × Store → (A → Action B) → Result B × Store
continue (ok a, s) f = f a s
continue (err e, s) f = (err e, s)

infixl 5 ◌>>=◌ ◌>>◌
unfoldable pub ◌>>=◌ {ℓ κ} : {A : Type ℓ} {B : Type κ} → Action A → (A → Action B) → Action B
◌>>=◌ m f s = continue (m s) f

unfoldable pub ◌>>◌ {ℓ κ} : {A : Type ℓ} {B : Type κ} → Action A → Action B → Action B
m >> k = m >>= λ _. k

unfoldable pub modify : (Store → Store) → Action (Unit {0})
modify f s = (ok tt, f s)

unfoldable pub throw_if : Bool → Error → Action (Unit {0})
throw_if true e = throw e
throw_if false e = pure tt

-- `for (const x of xs) await f(x)`
unfoldable pub for_each {ℓ} : {A : Type ℓ} → List A → (A → Action (Unit {0})) → Action (Unit {0})
for_each [] f = pure tt
for_each (x ∷ xs) f = f x >> for_each xs f

-- Named on an `unfolding` line, this opens the calls above.
unfoldable pub chains : Unit {0}
unfolding pure throw gets lift or_throw ◌>>=◌ ◌>>◌ modify throw_if for_each
chains = tt
