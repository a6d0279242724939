-- ===== src/Bridge.antt =====
-- src/core/bridge.js: the vouchers of a run by disposition, and the file that they came from.
pub mod Partition
pub mod Computed
pub mod Groups
pub mod File
pub mod Verdict
use eco_green_zoho_migration.Base.{
  ℕ, suc, ◌+◌, Text, text, Bool, true, false, not, ◌&&◌, Option, none, some, List, [], ◌∷◌, ◌++◌,
  map, filter, length, every, if◌then◌else◌, ◌==◌, ℤ, pos, ◌+ℤ◌, ◌-ℤ◌, int_Eq, nat_Eq, ltb, truthy,
  nat_eq,
}
use eco_green_zoho_migration.Errors.{Result, ok, err}
use eco_green_zoho_migration.Money.{format_money}
use eco_green_zoho_migration.Store.Rows.{Voucher, Disposition, Disposition_Eq, ReconStatus}
use eco_green_zoho_migration.Fallible.{steps, ◌>>=◌, map_ok, filter_ok, sum_of, read_money}

-- An entry of `byDisposition`, in the order in which the dispositions first occur.
pub record Group : Type 0 where
  pub disposition : Disposition
  pub count : ℕ
  pub debit : ℤ
  pub credit : ℤ
  pub voucher_ids : List ℕ

abbrev pub empty_group : Disposition → Group
empty_group d = record {
  disposition = d;
  count = 0;
  debit = pos 0;
  credit = pos 0;
  voucher_ids = [];
}

abbrev pub put_voucher : Voucher → ℤ → ℤ → Group → Group
put_voucher v d c g = record g {
  count = g.count + 1;
  debit = g.debit +ℤ d;
  credit = g.credit +ℤ c;
  voucher_ids = g.voucher_ids ++ v.id ∷ [];
}

unfoldable pub add_voucher : Voucher → ℤ → ℤ → List Group → List Group
add_voucher v d c [] = put_voucher v d c (empty_group v.disposition) ∷ []
add_voucher v d c (g ∷ gs) =
    if g.disposition == v.disposition then put_voucher v d c g ∷ gs else g ∷ add_voucher v d c gs

abbrev pub debit_of : Voucher → Result ℤ
debit_of v = read_money v.debit_total

abbrev pub credit_of : Voucher → Result ℤ
credit_of v = read_money v.credit_total

unfoldable pub group_from : List Group → List Voucher → Result (List Group)
unfolding steps
group_from gs [] = ok gs
group_from gs (v ∷ vs) = do d ← debit_of v; c ← credit_of v; group_from (add_voucher v d c gs) vs

-- The sums of a field of the groups: `Object.values(byDisposition)`.
abbrev pub sum_counts : ℕ → List Group → ℕ
sum_counts n [] = n
sum_counts n (g ∷ gs) = sum_counts (n + g.count) gs

abbrev pub sum_field : (Group → ℤ) → ℤ → List Group → ℤ
sum_field f t [] = t
sum_field f t (g ∷ gs) = sum_field f (t +ℤ f g) gs

abbrev pub count_in : Disposition → List Group → ℕ
count_in d [] = 0
count_in d (g ∷ gs) = if g.disposition == d then g.count else count_in d gs

-- An unbalanced voucher that is not blocked.
unfoldable pub is_leaked : Voucher → Result Bool
unfolding steps
is_leaked v = do
  d ← debit_of v
  c ← credit_of v
  ok (not (d == c) && not (v.disposition == Disposition.blocked))

pub record Bridge : Type 0 where
  pub count : ℕ
  pub debit : ℤ
  pub credit : ℤ
  pub by_disposition : List Group
  pub ties : Bool
  pub balanced : Bool
  pub unbalanced_outside_blocked : List ℕ
  pub pending_count : ℕ

-- `computeBridge`, whose amounts are printed where they are stored.
unfoldable pub compute_bridge : List Voucher → Result Bridge
unfolding steps
compute_bridge vs = do
  groups ← group_from [] vs
  total_debit ← sum_of debit_of vs
  total_credit ← sum_of credit_of vs
  leaked ← filter_ok is_leaked vs
  ok (record {
    count = length vs;
    debit = total_debit;
    credit = total_credit;
    by_disposition = groups;
    ties =
        sum_counts 0 groups == length vs
        && sum_field (λ g. g.debit) (pos 0) groups == total_debit
        && sum_field (λ g. g.credit) (pos 0) groups == total_credit;
    balanced = total_debit == total_credit;
    unbalanced_outside_blocked = map (λ v. v.id) leaked;
    pending_count = count_in Disposition.pending groups;
  })
