-- ===== src/Books/Retry.antt =====
-- `withRetry` and `fullJitterBackoff` of src/books/limiter.js.
use eco_green_zoho_migration.Base.{
  ℕ, zero, suc, ◌+◌, ◌*◌, ◌≡◌, ◌≤◌, ◌<◌, ◌⊎◌, inl, inr, refl, Bool, true, false, ◌&&◌, Option, none,
  some, List, [], ◌∷◌, length, All, arith, ltb, leb, if◌then◌else◌, Bool-cases, Option-cases,
  nat_eq, ap, ◌∙◌, length,
}
use eco_green_zoho_migration.Store.Rows.{
  ResponseClass, success, rate_limit, retryable, auth, non_retryable, unknown,
}

-- What one call of `attemptFn` resolves to: `class` is none where the outcome is not classified.
pub record Outcome {ℓ} (A : Type ℓ) : Type ℓ where
  pub class : Option ResponseClass
  pub retry_after_ms : Option ℕ
  pub value : A

pub record Options : Type 0 where
  pub max_attempts : ℕ
  pub base_ms : ℕ
  pub max_ms : ℕ
  pub honour_retry_after : Bool

pub data Ended {ℓ} (A : Type ℓ) : Type ℓ where
  returned thrown : Outcome A → Ended A

-- How a run went: its attempts, the delays slept, and how it ended.
pub record Run {ℓ} (A : Type ℓ) : Type ℓ where
  pub attempts : ℕ
  pub delays : List ℕ
  pub ended : Ended A

unfoldable pub power_of_two : ℕ → ℕ
power_of_two zero = 1
power_of_two (suc n) = 2 * power_of_two n

unfoldable pub min : ℕ → ℕ → ℕ
min m n = if leb m n then m else n

abbrev pub max : ℕ → ℕ → ℕ
max m n = if leb m n then n else m

abbrev is_done : Option ResponseClass → Bool
is_done none = true
is_done (some success) = true
is_done (some rate_limit) = false
is_done (some retryable) = false
is_done (some auth) = false
is_done (some non_retryable) = false
is_done (some unknown) = false

-- `RETRYABLE_CLASSES.has(cls)`
abbrev is_retryable : Option ResponseClass → Bool
is_retryable none = false
is_retryable (some success) = false
is_retryable (some rate_limit) = true
is_retryable (some retryable) = true
is_retryable (some auth) = false
is_retryable (some non_retryable) = false
is_retryable (some unknown) = false

-- `draw n cap` is `Math.floor(random() * cap)` for the n-th attempt; attempts count from 1.
unfoldable pub full_jitter_backoff : (draw : ℕ → ℕ → ℕ) → Options → (attempt : ℕ) → ℕ
unfolding power_of_two min
full_jitter_backoff draw o zero = draw zero (min o.max_ms o.base_ms)
full_jitter_backoff draw o (suc before) =
    draw (suc before) (min o.max_ms (o.base_ms * power_of_two before))

abbrev or_else : Option ℕ → ℕ → ℕ
or_else none d = d
or_else (some ms) d = ms

unfoldable pub delay_after {ℓ} :
    {A : Type ℓ} → (ℕ → ℕ → ℕ) → Options → Outcome A → (attempt : ℕ) → ℕ
delay_after draw o r attempt =
    or_else (if o.honour_retry_after then r.retry_after_ms else none)
      (full_jitter_backoff draw o attempt)

abbrev slept {ℓ} : {A : Type ℓ} → ℕ → Option (Run A) → Option (Run A)
slept d none = none
slept d (some r) = some (record r { delays = d ∷ r.delays })

module _ {ℓ} {A : Type ℓ} (draw : ℕ → ℕ → ℕ) (o : Options) (attempt_fn : ℕ → Outcome A) where
  abbrev ends_at : ℕ → Ended A → Option (Run A)
  ends_at n e = some (record { attempts = n; delays = []; ended = e })

  -- The loop, after `before` attempts.
  unfoldable pub with_retry_from : (fuel before : ℕ) → Option (Run A)
  with_retry_from zero before = none
  with_retry_from (suc fuel) before =
      let rest = with_retry_from fuel (suc before) in
      if is_done (attempt_fn (suc before)).class
      then ends_at (suc before) (returned (attempt_fn (suc before)))
      else if is_retryable (attempt_fn (suc before)).class && ltb (suc before) o.max_attempts
      then slept (delay_after draw o (attempt_fn (suc before)) (suc before)) rest
      else ends_at (suc before) (thrown (attempt_fn (suc before)))

  unfoldable pub with_retry : Option (Run A)
  with_retry = with_retry_from (max 1 o.max_attempts) 0

-- `draw` stays below the cap that it is given: `random()` is at least 0 and less than 1.
abbrev pub IsDraw : (ℕ → ℕ → ℕ) → Type 0
IsDraw draw = (n cap : ℕ) → draw n cap ≤ cap

-- A delay is at most `max_ms`, or is the one that the server asked for after some attempt.
abbrev pub MayWait {ℓ} : {A : Type ℓ} → Options → (ℕ → Outcome A) → ℕ → Type 0
MayWait o attempt_fn d =
    (d ≤ o.max_ms)
    ⊎ ((o.honour_retry_after ≡ true) × ((n : ℕ) × ((attempt_fn n).retry_after_ms ≡ some d)))

-- What a finished run owes, seen from the attempts after `before`.
pub record IsRun {ℓ} {A : Type ℓ} (o : Options) (attempt_fn : ℕ → Outcome A) (before : ℕ)
    (r : Run A) : Type ℓ where
  pub at_least_one : before < r.attempts
  pub not_too_many : r.attempts ≤ max 1 o.max_attempts
  pub counted : r.attempts ≡ before + 1 + length r.delays
  pub earlier_may_repeat :
      (n : ℕ) → before < n → n < r.attempts → is_retryable (attempt_fn n).class ≡ true
  pub delays_allowed : All (MayWait o attempt_fn) r.delays
  pub last_decides :
      ((r.ended ≡ returned (attempt_fn r.attempts))
        × (is_done (attempt_fn r.attempts).class ≡ true))
      ⊎ ((r.ended ≡ thrown (attempt_fn r.attempts))
          × (is_done (attempt_fn r.attempts).class ≡ false)
          × (is_retryable (attempt_fn r.attempts).class ≡ true → o.max_attempts ≤ r.attempts))

module _ {ℓ} {A : Type ℓ} (draw : ℕ → ℕ → ℕ) (o : Options) (attempt_fn : ℕ → Outcome A) where
  backoff-≤ : IsDraw draw → (n : ℕ) → full_jitter_backoff draw o n ≤ o.max_ms
  unfolding full_jitter_backoff min
  backoff-≤ is_draw zero = ground (arith, is_draw zero (min o.max_ms o.base_ms))
  backoff-≤ is_draw (suc n) =
      ground (arith, is_draw (suc n) (min o.max_ms (o.base_ms * power_of_two n)))

  delay-MayWait : IsDraw draw → (n : ℕ) → MayWait o attempt_fn (delay_after draw o (attempt_fn n) n)
  unfolding delay_after
  delay-MayWait is_draw n = elim (Bool-cases o.honour_retry_after) [
    | inl honoured ↦ elim (Option-cases (attempt_fn n).retry_after_ms) [
      | inl none_given ↦ inl (ground (arith, backoff-≤ is_draw n))
      | inr (ms, given) ↦ inr (honoured, (n, ground arith))
    ]
    | inr ignored ↦ inl (ground (arith, backoff-≤ is_draw n))
  ]

  -- A further attempt before a run that goes on from there.
  precede :
      (before d : ℕ) (r : Run A)
      → MayWait o attempt_fn d
      → is_retryable (attempt_fn (suc before)).class ≡ true
      → IsRun o attempt_fn (suc before) r
      → IsRun o attempt_fn before (record r { delays = d ∷ r.delays })
  precede before d r may again is = record {
    at_least_one = omega (arith, is.at_least_one);
    not_too_many = is.not_too_many;
    counted = omega (arith, is.counted);
    earlier_may_repeat = λ n l h. elim (Bool-cases (nat_eq n (suc before))) [
      | inl same ↦
          (let e : n ≡ suc before = ground arith in
            ap (λ m. is_retryable (attempt_fn m).class) e ∙ again)
      | inr other ↦ is.earlier_may_repeat n (ground arith) h
    ];
    delays_allowed = (may, is.delays_allowed);
    last_decides = is.last_decides;
  }

  repeats :
      (fuel before : ℕ) (r : Run A)
      → is_done (attempt_fn (suc before)).class ≡ false
      → is_retryable (attempt_fn (suc before)).class && ltb (suc before) o.max_attempts ≡ true
      → with_retry_from draw o attempt_fn fuel (suc before) ≡ some r
      → with_retry_from draw o attempt_fn (suc fuel) before
        ≡ some (record r {
          delays = delay_after draw o (attempt_fn (suc before)) (suc before) ∷ r.delays;
        })
  unfolding with_retry_from
  repeats fuel before r undone again runs = ground arith

  goes_on :
      IsDraw draw
      → (fuel before : ℕ) → max 1 o.max_attempts ≤ before + fuel
      → before < max 1 o.max_attempts
      → (r : Run A) × (with_retry_from draw o attempt_fn fuel before ≡ some r)
        × IsRun o attempt_fn before r
  unfolding with_retry_from
  goes_on is_draw zero before enough room = absurd (omega arith)
  goes_on is_draw (suc fuel) before enough room =
      elim (Bool-cases (is_done (attempt_fn (suc before)).class)) [
        | inl done ↦ (
          record { attempts = suc before; delays = []; ended = returned (attempt_fn (suc before)) },
          ground arith,
          record {
            at_least_one = omega arith;
            not_too_many = room;
            counted = omega arith;
            earlier_may_repeat = λ n l h. absurd (omega arith);
            delays_allowed = tt;
            last_decides = inl (refl, done);
          },
        )
        | inr undone ↦
            elim (Bool-cases
              (is_retryable (attempt_fn (suc before)).class && ltb (suc before) o.max_attempts)) [
                | inl again ↦
                    let (r, runs, is) =
                      goes_on is_draw fuel (suc before) (omega arith) (ground arith) in
                    (
                      record r {
                        delays =
                            delay_after draw o (attempt_fn (suc before)) (suc before) ∷ r.delays;
                      },
                      repeats fuel before r undone again runs,
                      precede before (delay_after draw o (attempt_fn (suc before)) (suc before)) r
                          (delay-MayWait is_draw (suc before)) (ground arith) is,
                    )
                | inr stop ↦ (
                  record {
                    attempts = suc before;
                    delays = [];
                    ended = thrown (attempt_fn (suc before));
                  },
                  ground arith,
                  record {
                    at_least_one = omega arith;
                    not_too_many = room;
                    counted = omega arith;
                    earlier_may_repeat = λ n l h. absurd (omega arith);
                    delays_allowed = tt;
                    last_decides = inr (refl, undone, λ h. ground arith);
                  },
                )
              ]
      ]

  -- Given a `random` below 1, `withRetry` ends, and: it has made at least one attempt and at most
  -- the larger of `maxAttempts` and 1, with one delay between each two; every attempt before the
  -- last was classified as RATE_LIMIT or RETRYABLE; it returns the value of the last attempt if that
  -- is a SUCCESS or not classified, and else throws, a RATE_LIMIT or RETRYABLE only when no attempt
  -- is left; and each delay is at most `maxMs`, or the one that the server asked for, honoured.
  pub retry_ends :
      IsDraw draw → (r : Run A) × (with_retry draw o attempt_fn ≡ some r) × IsRun o attempt_fn 0 r
  unfolding with_retry
  retry_ends is_draw = goes_on is_draw (max 1 o.max_attempts) 0 (ground arith) (ground arith)
