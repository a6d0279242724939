-- ===== src/Executor/Client.antt =====
-- What the executor is given: the client of Zoho Books, and the clock's arithmetic.
use eco_green_zoho_migration.Base.{
  ℕ, zero, suc, ◌*◌, Text, text, not, Option, some, List, if◌then◌else◌, ◌==◌, text_Eq,
}
use eco_green_zoho_migration.Errors.{Result, ok}
use eco_green_zoho_migration.Store.Rows.{ResponseClass}
use eco_green_zoho_migration.Books.Guard.{BooksConfig, assert_posting_allowed, not_given}
use eco_green_zoho_migration.Books.Retry.{power_of_two, min}

-- How a call of `create` ends: the classification of the error that it throws, or SUCCESS with the
-- id of the record. `message` is the message of the error.
pub record Answer : Type 0 where
  pub class : ResponseClass
  pub reason : Option Text
  pub retry_after_ms : Option ℕ
  pub record_id : Option Text
  pub message : Option Text

pub record Client : Type 0 where
  pub driver : Text
  pub config : BooksConfig
  pub max_attempts : ℕ
  pub create : (target_module payload idempotency_key : Text) → Answer
  -- The message of the error that `JSON.parse` throws of a text, if it throws.
  pub json_error : Text → Option Text
  pub search_by_migration_tag : (target_module : Option Text) → (source_hash : Text) → List Text
  -- `new Date(Date.parse(t) + ms).toISOString()`
  pub later : Text → ℕ → Text
  -- `Math.floor(random() * cap)` for the n-th attempt
  pub draw : ℕ → ℕ → ℕ

unfoldable pub assert_client_posting_allowed : Client → Result (Unit {0})
assert_client_posting_allowed client =
    if not (client.driver == text "live")
    then ok tt
    else assert_posting_allowed (some client.config) not_given

abbrev pub at_least_one : ℕ → ℕ
at_least_one zero = 1
at_least_one (suc n) = suc n

unfoldable pub backoff_ms : Client → (attempt : ℕ) → ℕ
backoff_ms client zero = at_least_one (client.draw zero (min 30000 500))
backoff_ms client (suc n) = at_least_one (client.draw (suc n) (min 30000 (500 * power_of_two n)))
