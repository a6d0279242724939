-- ===== src/Books/Classify.antt =====
-- src/books/classify.js: what the outcome of one HTTP attempt means for a retry.
use eco_green_zoho_migration.Base.{
  ℕ, ◌≡◌, ◌↔◌, ◌≤◌, ◌<◌, ◌⊎◌, Bool, false, ◌&&◌, ◌||◌, Option, none, some, arith, Text, leb, ltb,
  nat_eq, if◌then◌else◌, truthy, inl, inr, Option-cases,
}
use eco_green_zoho_migration.Store.Rows.{
  ResponseClass, success, rate_limit, retryable, auth, non_retryable, unknown,
}

-- The reason strings, with the numbers that they are built from.
pub data Reason : Type 0 where
  timeout_after_send network_error unparseable_body : Reason
  described : Text → Reason
  http http_auth unexpected_status : ℕ → Reason

pub record Classification : Type 0 where
  pub class : ResponseClass
  pub reason : Option Reason
  pub retry_after_ms : Option ℕ

pub record Attempt : Type 0 where
  pub status : Option ℕ
  pub error : Option Text  -- its code or message
  pub timed_out_after_send : Bool
  pub retry_after_header : Option Text
  pub body_parse_error : Bool

abbrev outcome : ResponseClass → Reason → Classification
outcome c r = record { class = c; reason = some r; retry_after_ms = none }

-- `to_millis` is `Math.round(Number(header) * 1000)`, or null where that is no number or negative.
parse_retry_after_ms : (Text → Option ℕ) → Option Text → Option ℕ
parse_retry_after_ms to_millis none = none
parse_retry_after_ms to_millis (some header) =
    if truthy (some header) then to_millis header else none

describe : Option Text → Reason
describe none = network_error
describe (some e) = if truthy (some e) then described e else network_error

unfoldable pub classify_status : (Text → Option ℕ) → Attempt → ℕ → Classification
unfolding parse_retry_after_ms
classify_status to_millis a status =
    if leb 200 status && ltb status 300
    then if a.body_parse_error
      then outcome unknown unparseable_body
      else record { class = success; reason = none; retry_after_ms = none }
    else if nat_eq status 429
    then record {
      class = rate_limit;
      reason = some (http 429);
      retry_after_ms = parse_retry_after_ms to_millis a.retry_after_header;
    }
    else if nat_eq status 401 || nat_eq status 403
    then outcome auth (http_auth status)
    else if nat_eq status 500 || nat_eq status 502 || nat_eq status 503 || nat_eq status 504
    then outcome retryable (http status)
    else if leb 400 status && ltb status 500
    then outcome non_retryable (http status)
    else outcome unknown (unexpected_status status)

unfoldable pub classify_response : (Text → Option ℕ) → Attempt → Classification
unfolding classify_status describe
classify_response to_millis a =
    if a.timed_out_after_send then outcome unknown timeout_after_send else elim a.status [
      | none ↦ outcome retryable (describe a.error)
      | some status ↦ classify_status to_millis a status
    ]

-- The statuses that say that a request was refused for now.
abbrev pub IsTransient : ℕ → Type 0
IsTransient s = (s ≡ 429) ⊎ (s ≡ 500) ⊎ (s ≡ 502) ⊎ (s ≡ 503) ⊎ (s ≡ 504)

-- An attempt is classified as one that may be made again only if it did not time out after it was
-- sent, and either no answer came or the answer was 429, 500, 502, 503 or 504.
pub retry_is_safe :
    (to_millis : Text → Option ℕ) (a : Attempt)
    → ((classify_response to_millis a).class ≡ retryable)
      ⊎ ((classify_response to_millis a).class ≡ rate_limit)
    → (a.timed_out_after_send ≡ false)
      × ((a.status ≡ none) ⊎ ((s : ℕ) × (a.status ≡ some s) × IsTransient s))
unfolding classify_response classify_status
retry_is_safe to_millis a h = elim (Option-cases a.status) [
  | inl is_none ↦ (ground arith, inl is_none)
  | inr (s, is_some) ↦ (ground arith, inr (s, is_some, ground arith))
]

-- An attempt counts as a success exactly when it did not time out after it was sent, was answered
-- with a status from 200 to 299, and the body of the answer could be read.
pub success_iff :
    (to_millis : Text → Option ℕ) (a : Attempt)
    → ((classify_response to_millis a).class ≡ success) ↔ (
        (a.timed_out_after_send ≡ false)
        × (a.body_parse_error ≡ false)
        × ((s : ℕ) × (a.status ≡ some s) × (200 ≤ s) × (s < 300)))
unfolding classify_response classify_status
success_iff to_millis a = (
  λ h. elim (Option-cases a.status) [
    | inl is_none ↦ ground arith
    | inr (s, is_some) ↦ (ground arith, ground arith, (s, is_some, ground arith, ground arith))
  ],
  λ h. ground arith,
)
