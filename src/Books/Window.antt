-- ===== src/Books/Window.antt =====
-- `SlidingWindow` of src/books/limiter.js. One pass of the loop of `take` runs without an await, so
-- any interleaving of calls is a sequence of passes on the one list of timestamps.
use eco_green_zoho_migration.Base.{
  ℕ, suc, ◌+◌, ◌-◌, ◌≡◌, ◌≤◌, ◌<◌, refl, sym, ap, ◌∙◌, append_assoc, Bool, ◌&&◌, List, [], ◌∷◌,
  ◌++◌, All, length, arith, ltb, leb, if◌then◌else◌, Bool-cases, inl, inr,
}

pub record Limits : Type 0 where
  pub limit : ℕ
  pub window_ms : ℕ

-- `now - t >= windowMs`
abbrev pub is_stale : Limits → ℕ → ℕ → Bool
is_stale l now t = leb (t + l.window_ms) now

unfoldable pub evict : Limits → ℕ → List ℕ → List ℕ
evict l now [] = []
evict l now (t ∷ ts) = let rest = evict l now ts in if is_stale l now t then rest else t ∷ ts

pub data Pass : Type 0 where
  granted : List ℕ → Pass
  wait : (ms : ℕ) → List ℕ → Pass

abbrev pub wait_ms : Limits → ℕ → List ℕ → ℕ
wait_ms l now [] = 0
wait_ms l now (t ∷ ts) = (l.window_ms + t + 1) - now

-- One pass of `take` at the clock reading `now`.
unfoldable pub take_pass : Limits → (now : ℕ) → List ℕ → Pass
take_pass l now ts =
    let left = evict l now ts in
    if ltb (length left) l.limit then granted (left ++ now ∷ []) else wait (wait_ms l now left) left

-- How many of the grants fall into the `window_ms` milliseconds from `from` on.
unfoldable pub granted_in : Limits → (from : ℕ) → List ℕ → ℕ
granted_in l from [] = 0
granted_in l from (t ∷ ts) =
    let rest = granted_in l from ts in
    if leb from t && ltb t (from + l.window_ms) then suc rest else rest

-- The passes of all callers, in order, with the grants made so far.
pub record Limiter : Type 0 where
  pub timestamps : List ℕ
  pub grants : List ℕ

unfoldable pub run_pass : Limits → (now : ℕ) → Limiter → Limiter
run_pass l now w = elim (take_pass l now w.timestamps) [
  | granted ts ↦ record { timestamps = ts; grants = w.grants ++ now ∷ [] }
  | wait ms ts ↦ record { timestamps = ts; grants = w.grants }
]

unfoldable pub run_passes : Limits → List ℕ → Limiter → Limiter
run_passes l [] w = w
run_passes l (now ∷ nows) w = run_passes l nows (run_pass l now w)

abbrev pub IsAscending : ℕ → List ℕ → Type 0
IsAscending t [] = Unit
IsAscending t (u ∷ us) = (t ≤ u) × IsAscending u us

granted_in-append :
    (l : Limits) (from : ℕ) (ts us : List ℕ)
    → granted_in l from (ts ++ us) ≡ granted_in l from ts + granted_in l from us
unfolding granted_in
granted_in-append l from [] us = omega arith
granted_in-append l from (t ∷ ts) us = let rest = granted_in-append l from ts us in ground arith

abbrev AllStale : Limits → ℕ → List ℕ → Type 0
AllStale l now ts = All (λ t. t + l.window_ms ≤ now) ts

stale_later :
    (l : Limits) (now later : ℕ) (ts : List ℕ)
    → now ≤ later
    → AllStale l now ts
    → AllStale l later ts
stale_later l now later [] h a = tt
stale_later l now later (t ∷ ts) h (p, a) = (omega arith, stale_later l now later ts h a)

-- The stale grants do not count in a window that has not ended.
granted_in-stale :
    (l : Limits) (now from : ℕ) (ts : List ℕ)
    → now < from + l.window_ms
    → AllStale l now ts
    → granted_in l from ts ≡ 0
unfolding granted_in
granted_in-stale l now from [] h a = refl
granted_in-stale l now from (t ∷ ts) h (p, a) =
    let rest = granted_in-stale l now from ts h a in ground arith

granted_in-≤ : (l : Limits) (from : ℕ) (ts : List ℕ) → granted_in l from ts ≤ length ts
unfolding granted_in
granted_in-≤ l from [] = omega arith
granted_in-≤ l from (t ∷ ts) = let rest = granted_in-≤ l from ts in ground arith

AllStale-append :
    (l : Limits) (now : ℕ) (ts us : List ℕ)
    → AllStale l now ts
    → AllStale l now us
    → AllStale l now (ts ++ us)
AllStale-append l now [] us a b = b
AllStale-append l now (t ∷ ts) us (p, a) b = (p, AllStale-append l now ts us a b)

-- What `evict` drops is stale.
evict_lem :
    (l : Limits) (now : ℕ) (ts : List ℕ)
    → (gone : List ℕ) × (ts ≡ gone ++ evict l now ts) × AllStale l now gone
unfolding evict
evict_lem l now [] = ([], refl, tt)
evict_lem l now (t ∷ ts) = elim (Bool-cases (is_stale l now t)) [
  | inl stale ↦ let (gone, e, a) = evict_lem l now ts in (t ∷ gone, ground arith, (ground arith, a))
  | inr fresh ↦ ([], ground arith, tt)
]

evict-≤ : (l : Limits) (now : ℕ) (ts : List ℕ) → length (evict l now ts) ≤ length ts
unfolding evict
evict-≤ l now [] = omega arith
evict-≤ l now (t ∷ ts) = let rest = evict-≤ l now ts in ground arith

record IsFair (l : Limits) (now : ℕ) (w : Limiter) : Type 0 where
  gone : List ℕ
  split : w.grants ≡ gone ++ w.timestamps
  stale : AllStale l now gone
  fair : (from : ℕ) → granted_in l from w.grants ≤ l.limit

-- A window that holds a grant made now holds, besides, no more than the timestamps kept.
window_now :
    (l : Limits) (now from : ℕ) (gone kept : List ℕ)
    → AllStale l now gone
    → now < from + l.window_ms
    → length kept < l.limit
    → granted_in l from ((gone ++ kept) ++ now ∷ []) ≤ l.limit
unfolding granted_in
window_now l now from gone kept a inside room =
    let whole = granted_in-append l from (gone ++ kept) (now ∷ []) in
    let parts = granted_in-append l from gone kept in
    let none_gone = granted_in-stale l now from gone inside a in
    let few = granted_in-≤ l from kept in ground arith

window_past :
    (l : Limits) (now from : ℕ) (ts : List ℕ)
    → from + l.window_ms ≤ now
    → granted_in l from (ts ++ now ∷ []) ≡ granted_in l from ts
unfolding granted_in
window_past l now from ts over = let whole = granted_in-append l from ts (now ∷ []) in ground arith

pass-IsFair :
    (l : Limits) (now later : ℕ) (w : Limiter)
    → now ≤ later
    → IsFair l now w
    → IsFair l later (run_pass l later w)
unfolding run_pass take_pass
pass-IsFair l now later w h i =
    let (gone, e, a) = evict_lem l later w.timestamps in
    let all_gone =
      AllStale-append l later i.gone gone (stale_later l now later i.gone h i.stale) a in
    let split : w.grants ≡ (i.gone ++ gone) ++ evict l later w.timestamps =
      i.split
      ∙ ap (λ ts. i.gone ++ ts) e
      ∙ sym (append_assoc i.gone gone (evict l later w.timestamps)) in
    elim (Bool-cases (ltb (length (evict l later w.timestamps)) l.limit)) [
      | inl room ↦ record {
        gone = i.gone ++ gone;
        split =
            ground (arith, append_assoc (i.gone ++ gone) (evict l later w.timestamps) (later ∷ []));
        stale = all_gone;
        fair = λ from. elim (Bool-cases (ltb later (from + l.window_ms))) [
          | inl inside ↦
              (let few =
                  window_now l later from (i.gone ++ gone) (evict l later w.timestamps) all_gone
                    (ground arith) (ground arith) in
                ground arith)
          | inr over ↦
              (let past = window_past l later from w.grants (ground arith) in
                let f = i.fair from in ground arith)
        ];
      }
      | inr full ↦ record {
        gone = i.gone ++ gone;
        split = ground arith;
        stale = all_gone;
        fair = λ from. let f = i.fair from in ground arith;
      }
    ]

passes-IsFair :
    (l : Limits) (now : ℕ) (nows : List ℕ) (w : Limiter) (from : ℕ)
    → IsAscending now nows
    → IsFair l now w
    → granted_in l from (run_passes l nows w).grants ≤ l.limit
unfolding run_passes
passes-IsFair l now [] w from a i = i.fair from
passes-IsFair l now (later ∷ nows) w from (h, a) i =
    passes-IsFair l later nows (run_pass l later w) from a (pass-IsFair l now later w h i)

abbrev pub unused : Limiter
unused = record { timestamps = []; grants = [] }

-- From an unused window on, however the passes of concurrent callers interleave, while the clock
-- does not go back, no stretch of `window_ms` milliseconds holds more than `limit` grants.
pub limit_is_kept :
    (l : Limits) (nows : List ℕ) (from : ℕ)
    → IsAscending 0 nows
    → granted_in l from (run_passes l nows unused).grants ≤ l.limit
unfolding granted_in
limit_is_kept l nows from a =
    passes-IsFair l 0 nows unused from a
      (record { gone = []; split = refl; stale = tt; fair = λ from. omega arith })

wait_frees :
    (l : Limits) (now later t : ℕ) (ts : List ℕ)
    → now + wait_ms l now (t ∷ ts) ≤ later
    → length (t ∷ ts) ≤ l.limit
    → (us : List ℕ) × (take_pass l later (t ∷ ts) ≡ granted us)
unfolding take_pass evict
wait_frees l now later t ts slept few =
    let fewer = evict-≤ l later ts in (evict l later ts ++ later ∷ [], ground arith)

waits_lem :
    (l : Limits) (now ms : ℕ) (ts left : List ℕ)
    → take_pass l now ts ≡ wait ms left
    → (left ≡ evict l now ts) × (ms ≡ wait_ms l now left)
unfolding take_pass
waits_lem l now ms ts left h = (ground arith, ground arith)

-- With a positive limit and no more timestamps than it, a pass that has to wait is enough: the next
-- pass after the wait that it computed gets its slot, if no other pass has come between.
pub one_wait_is_enough :
    (l : Limits) (now later ms : ℕ) (ts left : List ℕ)
    → 0 < l.limit
    → length ts ≤ l.limit
    → take_pass l now ts ≡ wait ms left
    → now + ms ≤ later
    → (us : List ℕ) × (take_pass l later left ≡ granted us)
unfolding take_pass evict
one_wait_is_enough l now later ms ts [] positive few waits slept = ([] ++ later ∷ [], ground arith)
one_wait_is_enough l now later ms ts (t ∷ left) positive few waits slept =
    let (is_left, is_ms) = waits_lem l now ms ts (t ∷ left) waits in
    let fewer = evict-≤ l now ts in
    let same = ap length is_left in wait_frees l now later t left (ground arith) (omega arith)
