-- ===== src/Cutover/Specific.antt =====
-- `resolveCutover` picks the most specific rule of those that apply.
use eco_green_zoho_migration.Base.{
  ℕ, suc, ◌≡◌, ◌≤◌, ◌<◌, inl, inr, sym, Bool, true, false, ◌&&◌, Option, none, some, List, [], ◌∷◌,
  All, find, filter, arith, if◌then◌else◌, Bool-cases, Option-cases,
}
use mathlib.Core.Path.{subst}
use mathlib.Core.List.{Mem, mem-cons_of_mem, mem-cons_self}
use eco_green_zoho_migration.Cutover.{
  CutoverRule, Wanted, is_approved_for, is_exact, is_any_payment, is_any, resolve_cutover,
}

-- How closely a rule fits: 0 where it does not apply at all.
abbrev pub rank : Wanted → CutoverRule → ℕ
rank w r =
    if is_approved_for w r
    then (if is_exact w r then 3 else if is_any_payment w r then 2 else if is_any r then 1 else 0)
    else 0

All-map {ℓ} :
    {A : Type ℓ} {P Q : A → Type 0} → ((a : A) → P a → Q a) → (xs : List A) → All P xs → All Q xs
All-map f [] a = tt
All-map f (x ∷ xs) (p, a) = (f x p, All-map f xs a)

module _ {ℓ} {A : Type ℓ} (keep p : A → Bool) where
  -- The first kept element that passes stands in the list, and is none only if none passes.
  find-filter :
      (xs : List A) (a : A)
      → find p (filter keep xs) ≡ some a
      → Mem a xs × (keep a ≡ true) × (p a ≡ true)
  find-filter [] a h = absurd (ground arith)
  find-filter (x ∷ xs) a h = elim (Bool-cases (keep x && p x)) [
    | inl hit ↦ (
      let e : x ≡ a = ground arith in subst (λ b. Mem b (x ∷ xs)) e mem-cons_self,
      ground arith,
      ground arith,
    )
    | inr miss ↦ (let (m, k, q) = find-filter xs a (ground arith) in (mem-cons_of_mem x m, k, q))
  ]

  find-none-filter :
      (xs : List A) → find p (filter keep xs) ≡ none → All (λ x. keep x && p x ≡ false) xs
  find-none-filter [] h = tt
  find-none-filter (x ∷ xs) h = (ground arith, find-none-filter xs (ground arith))

module _ (w : Wanted) where
  ranks_3 : (xs : List CutoverRule) → All (λ q. rank w q ≤ 3) xs
  ranks_3 [] = tt
  ranks_3 (x ∷ xs) = (ground arith, ranks_3 xs)

  ranks_2 :
      (xs : List CutoverRule)
      → All (λ q. is_approved_for w q && is_exact w q ≡ false) xs
      → All (λ q. rank w q ≤ 2) xs
  ranks_2 [] a = tt
  ranks_2 (x ∷ xs) (p, a) = (ground arith, ranks_2 xs a)

  ranks_1 :
      (xs : List CutoverRule)
      → All (λ q. rank w q ≤ 2) xs
      → All (λ q. is_approved_for w q && is_any_payment w q ≡ false) xs
      → All (λ q. rank w q ≤ 1) xs
  ranks_1 [] b a = tt
  ranks_1 (x ∷ xs) (q, b) (p, a) = (ground arith, ranks_1 xs b a)

  ranks_0 :
      (xs : List CutoverRule)
      → All (λ q. rank w q ≤ 1) xs
      → All (λ q. is_approved_for w q && is_any q ≡ false) xs
      → All (λ q. rank w q ≡ 0) xs
  ranks_0 [] b a = tt
  ranks_0 (x ∷ xs) (q, b) (p, a) = (ground arith, ranks_0 xs b a)

  -- A rule found by one of the three searches, where no rule of the matrix has a greater rank.
  found_lem :
      (p : CutoverRule → Bool) (n : ℕ) (rows : List CutoverRule) (a : CutoverRule)
      → find p (filter (is_approved_for w) rows) ≡ some a
      → ((q : CutoverRule) → is_approved_for w q ≡ true → p q ≡ true → suc n ≤ rank w q)
      → All (λ q. rank w q ≤ suc n) rows
      → Mem a rows × (0 < rank w a) × All (λ q. rank w q ≤ rank w a) rows
  found_lem p n rows a found fits b =
      let (m, k, h) = find-filter (is_approved_for w) p rows a found in
      let f = fits a k h in (m, omega arith, All-map (λ q l. omega arith) rows b)

-- A rule of the matrix that applies, and that no other rule of the matrix fits more closely than.
abbrev pub IsBest : List CutoverRule → Wanted → CutoverRule → Type 0
IsBest rows w r = Mem r rows × (0 < rank w r) × All (λ q. rank w q ≤ rank w r) rows

-- What is right to resolve to.
abbrev pub IsRight : List CutoverRule → Wanted → Option CutoverRule → Type 0
IsRight rows w none = All (λ q. rank w q ≡ 0) rows
IsRight rows w (some r) = IsBest rows w r

right :
    (rows : List CutoverRule) (w : Wanted) (o : Option CutoverRule)
    → resolve_cutover rows w ≡ o
    → IsRight rows w o
    → IsRight rows w (resolve_cutover rows w)
right rows w o e h = subst (IsRight rows w) (sym e) h

-- Of the rules of a cutover matrix, the one that is resolved stands in it and applies to the voucher:
-- it is approved, of the voucher's branch, and fits its class and payment method or has `*` for the
-- payment method or for both; and no other rule of the matrix fits more closely. None is resolved
-- only if none applies.
pub resolves_most_specific :
    (rows : List CutoverRule) (w : Wanted) → IsRight rows w (resolve_cutover rows w)
unfolding resolve_cutover
resolves_most_specific rows w =
    elim (Option-cases (find (is_exact w) (filter (is_approved_for w) rows))) [
      | inr (a, found) ↦
          right rows w (some a) (ground arith)
            (found_lem w (is_exact w) 2 rows a found (λ q k h. ground arith) (ranks_3 w rows))
      | inl no_exact ↦
          let two =
            ranks_2 w rows (find-none-filter (is_approved_for w) (is_exact w) rows no_exact) in
          elim (Option-cases (find (is_any_payment w) (filter (is_approved_for w) rows))) [
            | inr (a, found) ↦
                right rows w (some a) (ground arith)
                  (found_lem w (is_any_payment w) 1 rows a found (λ q k h. ground arith) two)
            | inl no_payment ↦
                let one =
                  ranks_1 w rows two
                    (find-none-filter (is_approved_for w) (is_any_payment w) rows no_payment) in
                elim (Option-cases (find is_any (filter (is_approved_for w) rows))) [
                  | inr (a, found) ↦
                      right rows w (some a) (ground arith)
                        (found_lem w is_any 0 rows a found (λ q k h. ground arith) one)
                  | inl no_any ↦
                      right rows w none (ground arith) (
                        ranks_0 w rows one
                          (find-none-filter (is_approved_for w) is_any rows no_any))
                ]
          ]
    ]
