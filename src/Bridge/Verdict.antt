-- ===== src/Bridge/Verdict.antt =====
-- When the bridge of a run passes.
use eco_green_zoho_migration.Base.{
  ℕ, ◌+◌, Text, text, ◌≡◌, ◌≢◌, ◌↔◌, ◌⊎◌, inl, inr, refl, sym, ap, ◌∙◌, Bool, true, false, not,
  ◌&&◌, ◌||◌, some, List, [], ◌∷◌, map, filter, length, if◌then◌else◌, ◌==◌, ℤ, ◌+ℤ◌, int_Eq,
  eq_ℤ_iff, nat_Eq, nat_eq_iff, All, arith, Bool-cases, ltb, every,
}
use eco_green_zoho_migration.Errors.{ok}
use eco_green_zoho_migration.Store.Rows.{
  Voucher, Disposition, Disposition_Eq, disposition_eq_iff, ReconStatus,
}
use eco_green_zoho_migration.Fallible.{steps, sum_of, read_money, filter_ok}
use eco_green_zoho_migration.Fallible.Sums.{
  bind-eq-ok, ok-injective, filter_ok-split, bind-ok, sum_of-eq-ok,
}
use eco_green_zoho_migration.Bridge.{
  debit_of, credit_of, is_leaked, Bridge, compute_bridge, group_from,
}
use eco_green_zoho_migration.Bridge.Groups.{bridge_is_partition}
use eco_green_zoho_migration.Bridge.File.{
  FileStats, RejectedRow, FileBridge, compare_bridge_to_file, file_bridge, file_ties, verdict,
  layer_b, count_lines, rows_or_zero, amount_or_zero, rows_control, money_control, is_match,
}

-- The voucher balances, or it is blocked.
abbrev pub IsContained : Voucher → Type 0
IsContained v = (debit_of v ≡ credit_of v) ⊎ (v.disposition ≡ Disposition.blocked)

IsContained-iff : (v : Voucher) (b : Bool) → is_leaked v ≡ ok b → (b ≡ false) ↔ IsContained v
unfolding is_leaked
IsContained-iff v b h =
    let (d, p, h1) = bind-eq-ok (debit_of v) _ h in
    let (c, q, h2) = bind-eq-ok (credit_of v) _ h1 in
    let leaks : not (d == c) && not (v.disposition == Disposition.blocked) ≡ b = ok-injective h2 in
    (
      λ f. elim (Bool-cases (d == c)) [
        | inl e ↦ inl (p ∙ ap ok ((eq_ℤ_iff d c).0 e) ∙ sym q)
        | inr e ↦
            inr
              ((disposition_eq_iff v.disposition Disposition.blocked).0 (ground (arith, leaks, f)))
      ],
      λ s. elim s [
        | inl e ↦
            let same : d ≡ c = ok-injective (sym p ∙ e ∙ q) in
            let tied = (eq_ℤ_iff d c).1 same in (ground (arith, leaks, tied))
        | inr e ↦
            let held = (disposition_eq_iff v.disposition Disposition.blocked).1 e in
            (ground (arith, leaks, held))
      ],
    )

none_leaked :
    (vs leaked : List Voucher)
    → filter_ok is_leaked vs ≡ ok leaked
    → (length (map (λ v. v.id) leaked) ≡ 0) ↔ All IsContained vs
unfolding steps
none_leaked [] leaked h = (λ e. tt, λ a. rw (← ok-injective h) refl)
none_leaked (v ∷ vs) leaked h =
    let (b, ys, p, q, e) = filter_ok-split is_leaked v vs h in
    let rest = none_leaked vs ys q in
    let head = IsContained-iff v b p in
    elim (Bool-cases b) [
      | inl t ↦
          (λ z. absurd (omega (arith, rw (e, t) at z)), λ a. absurd (ground (arith, head.1 a.0)))
      | inr t ↦ (λ z. (head.0 t, rest.0 (rw (e, t) at z)), λ a. rw (e, t) (rest.1 a.1))
    ]

none_pending :
    (vs : List Voucher)
    → (length (map (λ v. v.id) (filter (λ v. v.disposition == Disposition.pending) vs)) ≡ 0)
      ↔ All (λ v. v.disposition ≢ Disposition.pending) vs
none_pending [] = (λ e. tt, λ a. refl)
none_pending (v ∷ vs) = elim (Bool-cases (v.disposition == Disposition.pending)) [
  | inl t ↦ (
    λ z. absurd (omega (arith, rw t at z)),
    λ a. absurd (a.0 ((disposition_eq_iff v.disposition Disposition.pending).0 t)),
  )
  | inr t ↦ (
    λ z. (
      λ e. absurd (ground (arith, (disposition_eq_iff v.disposition Disposition.pending).1 e)),
      (none_pending vs).0 (rw t at z),
    ),
    λ a. rw t ((none_pending vs).1 a.1),
  )
]

-- The file, the vouchers and the rejected rows, as amounts that were read.
pub record Figures (file : FileStats) (vs : List Voucher) (rejected : List RejectedRow)
    : Type 0 where
  pub file_debit : ℤ
  pub file_credit : ℤ
  pub debit : ℤ
  pub credit : ℤ
  pub rejected_debit : ℤ
  pub rejected_credit : ℤ
  pub file_debit_is : read_money (amount_or_zero file.debit_total) ≡ ok file_debit
  pub file_credit_is : read_money (amount_or_zero file.credit_total) ≡ ok file_credit
  pub debit_is : sum_of debit_of vs ≡ ok debit
  pub credit_is : sum_of credit_of vs ≡ ok credit
  pub rejected_debit_is : sum_of (λ r. read_money r.debit) rejected ≡ ok rejected_debit
  pub rejected_credit_is : sum_of (λ r. read_money r.credit) rejected ≡ ok rejected_credit

-- The file's rows and amounts are those of the vouchers and of the rejected rows.
abbrev pub IsCovered :
    (file : FileStats) (vs : List Voucher) (rejected : List RejectedRow)
    → Figures file vs rejected
    → Type 0
IsCovered file vs rejected n =
    (rows_or_zero file.row_count ≡ count_lines 0 vs + length rejected)
    × (n.file_debit ≡ n.debit +ℤ n.rejected_debit)
    × (n.file_credit ≡ n.credit +ℤ n.rejected_credit)

rows-is_match : (m n : ℕ) → is_match (rows_control m n) ≡ (m == n)
unfolding rows_control
rows-is_match m n = elim (Bool-cases (m == n)) [ inl e ↦ rw e refl | inr e ↦ rw e refl ]

money-is_match : (key : Text) (a b : ℤ) → is_match (money_control key a b) ≡ (a == b)
unfolding money_control
money-is_match key a b = elim (Bool-cases (a == b)) [ inl e ↦ rw e refl | inr e ↦ rw e refl ]

-- Three controls that all match.
all_match :
    (m n : ℕ) (k k' : Text) (a b c d : ℤ)
    → (every is_match (rows_control m n ∷ money_control k a b ∷ money_control k' c d ∷ []) ≡ true)
      ↔ ((m ≡ n) × (a ≡ b) × (c ≡ d))
all_match m n k k' a b c d = (
  λ h. (
    (nat_eq_iff m n).0 (ground (arith, rows-is_match m n)),
    (eq_ℤ_iff a b).0 (ground (arith, money-is_match k a b)),
    (eq_ℤ_iff c d).0 (ground (arith, money-is_match k' c d)),
  ),
  λ h. rw (rows-is_match m n) (
      rw (money-is_match k a b) (
        rw (money-is_match k' c d) (
          rw ((nat_eq_iff m n).1 h.0)
            (rw ((eq_ℤ_iff a b).1 h.1) (rw ((eq_ℤ_iff c d).1 h.2) refl))))),
)

file_ties_iff :
    (file : FileStats) (vs : List Voucher) (rejected : List RejectedRow)
    (n : Figures file vs rejected)
    → (f : FileBridge) × (compare_bridge_to_file file vs rejected ≡ ok f)
      × ((file_ties f ≡ true) ↔ IsCovered file vs rejected n)
unfolding steps compare_bridge_to_file
file_ties_iff file vs rejected n = (
  _,
  bind-ok _ n.rejected_debit_is (
      bind-ok _ n.rejected_credit_is (
        bind-ok _ n.debit_is
          (bind-ok _ n.credit_is (bind-ok _ n.file_debit_is (bind-ok _ n.file_credit_is refl))))),
  all_match (rows_or_zero file.row_count) (count_lines 0 vs + length rejected)
      (text "bridge:file:debit") (text "bridge:file:credit") n.file_debit
      (n.debit +ℤ n.rejected_debit) n.file_credit (n.credit +ℤ n.rejected_credit),
)

verdict_iff :
    (b : Bridge) (f : FileBridge)
    → b.ties ≡ true
    → (verdict b f ≡ ReconStatus.pass)
      ↔ ((b.pending_count ≡ 0) × (length b.unbalanced_outside_blocked ≡ 0) × (file_ties f ≡ true))
unfolding verdict
verdict_iff b f t = rw t (
    passes (ltb 0 b.pending_count) (ltb 0 (length b.unbalanced_outside_blocked)) (file_ties f)
      (ground arith) (ground arith))
  where
    passes :
        (x y z : Bool)
        → (x ≡ false) ↔ (b.pending_count ≡ 0)
        → (y ≡ false) ↔ (length b.unbalanced_outside_blocked ≡ 0)
        → ((if x || false || not z || y then ReconStatus.fail else ReconStatus.pass)
            ≡ ReconStatus.pass)
          ↔ ((b.pending_count ≡ 0) × (length b.unbalanced_outside_blocked ≡ 0) × (z ≡ true))
    passes true y z p q = (λ h. absurd cc, λ h. absurd (ground (arith, p.1 h.0)))
    passes false true true p q = (λ h. absurd cc, λ h. absurd (ground (arith, q.1 h.1)))
    passes false true false p q = (λ h. absurd cc, λ h. absurd (ground arith))
    passes false false true p q = (λ h. (p.0 refl, q.0 refl, refl), λ h. refl)
    passes false false false p q = (λ h. absurd cc, λ h. absurd (ground arith))

leaked_of :
    (vs : List Voucher) (b : Bridge)
    → compute_bridge vs ≡ ok b
    → (leaked : List Voucher) × (filter_ok is_leaked vs ≡ ok leaked)
      × (b.unbalanced_outside_blocked ≡ map (λ v. v.id) leaked)
unfolding compute_bridge
leaked_of vs b h =
    let (gs, p, h1) = bind-eq-ok (group_from [] vs) _ h in
    let (d, q, h2) = bind-eq-ok (sum_of debit_of vs) _ h1 in
    let (c, r, h3) = bind-eq-ok (sum_of credit_of vs) _ h2 in
    let (leaked, s, h4) = bind-eq-ok (filter_ok is_leaked vs) _ h3 in
    (leaked, s, sym (ap (λ x. x.unbalanced_outside_blocked) (ok-injective h4)))

-- For a run with a TRANSACTIONS file, where every amount of the file, of its vouchers and of its
-- rejected rows is read: Layer B comes to a verdict, and it is PASS exactly if no voucher is pending,
-- every voucher that does not balance is blocked, and the file's row count, debits and credits are
-- those of the vouchers and of the rejected rows together.
pub layer_b_passes_iff :
    (file : FileStats) (vs : List Voucher) (rejected : List RejectedRow)
    (n : Figures file vs rejected)
    → (s : ReconStatus) × (layer_b (some file) vs rejected ≡ ok s)
      × ((s ≡ ReconStatus.pass) ↔ (
          All (λ v. v.disposition ≢ Disposition.pending) vs
          × All IsContained vs
          × IsCovered file vs rejected n))
unfolding steps layer_b file_bridge
layer_b_passes_iff file vs rejected n =
    let (ds, x, x') = sum_of-eq-ok debit_of vs n.debit_is in
    let (cs, y, y') = sum_of-eq-ok credit_of vs n.credit_is in
    let (b, p, d, c, ties, ids, pending) = bridge_is_partition vs ds cs x y in
    let (f, q, covered) = file_ties_iff file vs rejected n in
    let (leaked, r, e) = leaked_of vs b p in
    let passes = verdict_iff b f ties in
    (
      verdict b f,
      bind-ok _ p (bind-ok _ q refl),
      (
        λ t.
            let all = passes.0 t in
            (
              (none_pending vs).0 (sym pending ∙ all.0),
              (none_leaked vs leaked r).0 (ap length (sym e) ∙ all.1),
              covered.0 all.2,
            ),
        λ t. passes.1 (
          pending ∙ (none_pending vs).1 t.0,
          ap length e ∙ (none_leaked vs leaked r).1 t.1,
          covered.1 t.2,
        ),
      ),
    )
