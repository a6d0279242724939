-- ===== src/Classification/Pending.antt =====
-- The vouchers of a run that are still pending, and the ids that the loop of a classification visits.
use eco_green_zoho_migration.Base.{
  ℕ, Text, ◌≡◌, refl, Bool, true, false, ◌&&◌, ◌||◌, List, [], ◌∷◌, map, filter, includes, ◌==◌,
  text_Eq, nat_Eq, same_refl, All, arith, Bool-cases, inl, inr,
}
use eco_green_zoho_migration.Store.{Store, Voucher, Disposition, Disposition_Eq}

abbrev pub is_pending_in : (run_id : Text) → Voucher → Bool
is_pending_in run_id x = x.extraction_run_id == run_id && x.disposition == Disposition.pending

-- Every voucher of the run that is still pending has one of these ids.
abbrev pub PendingAre : (run_id : Text) → List ℕ → Store → Type 0
PendingAre run_id ids s =
    All (λ x. is_pending_in run_id x ≡ true → includes ids x.id ≡ true) s.vouchers

-- The ids of the vouchers that the loop goes over.
abbrev pending_ids : (run_id : Text) → List Voucher → List ℕ
pending_ids run_id rows =
    map (λ v. v.id)
      (filter (λ v. v.disposition == Disposition.pending)
        (filter (λ v. v.extraction_run_id == run_id) rows))

-- The first row adds its id if it is pending, and no id is lost.
head_listed :
    (run_id : Text) (x : Voucher) (xs : List Voucher)
    → is_pending_in run_id x ≡ true
    → includes (pending_ids run_id (x ∷ xs)) x.id ≡ true
head_listed run_id x xs h =
    let a : (x.extraction_run_id == run_id) ≡ true = ground arith in
    let b : (x.disposition == Disposition.pending) ≡ true = ground arith in
    rw (a, b) (rw (same_refl x.id) refl)

tail_listed :
    (run_id : Text) (x : Voucher) (xs : List Voucher) (i : ℕ)
    → includes (pending_ids run_id xs) i ≡ true
    → includes (pending_ids run_id (x ∷ xs)) i ≡ true
tail_listed run_id x xs i h = elim (Bool-cases (x.extraction_run_id == run_id)) [
  | inl a ↦ elim (Bool-cases (x.disposition == Disposition.pending)) [
    | inl b ↦ rw (a, b) (later (x.id == i) h)
    | inr b ↦ rw (a, b) h
  ]
  | inr a ↦ rw a h
]
  where
    later : (b : Bool) {c : Bool} → c ≡ true → b || c ≡ true
    later true q = refl
    later false q = q

more_ids :
    (run_id : Text) (ids more : List ℕ)
    → ((i : ℕ) → includes ids i ≡ true → includes more i ≡ true)
    → (rows : List Voucher)
    → All (λ x. is_pending_in run_id x ≡ true → includes ids x.id ≡ true) rows
    → All (λ x. is_pending_in run_id x ≡ true → includes more x.id ≡ true) rows
more_ids run_id ids more f [] h = tt
more_ids run_id ids more f (x ∷ xs) h = (λ p. f x.id (h.0 p), more_ids run_id ids more f xs h.1)

pub All-listed :
    (run_id : Text) (rows : List Voucher)
    → All (λ x. is_pending_in run_id x ≡ true → includes (pending_ids run_id rows) x.id ≡ true) rows
All-listed run_id [] = tt
All-listed run_id (x ∷ xs) = (
  head_listed run_id x xs,
  more_ids run_id (pending_ids run_id xs) (pending_ids run_id (x ∷ xs)) (tail_listed run_id x xs) xs
      (All-listed run_id xs),
)

pub none_left :
    (run_id : Text) (rows : List Voucher)
    → All (λ x. is_pending_in run_id x ≡ true → includes [] x.id ≡ true) rows
    → All (λ x. is_pending_in run_id x ≡ false) rows
none_left run_id [] h = tt
none_left run_id (x ∷ xs) h = (is_false (is_pending_in run_id x) h.0, none_left run_id xs h.1)
  where
    is_false : (b : Bool) → (b ≡ true → false ≡ true) → b ≡ false
    is_false true k = absurd (let q = k refl in cc)
    is_false false k = refl
