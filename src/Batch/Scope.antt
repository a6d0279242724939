-- ===== src/Batch/Scope.antt =====
-- `computeScope` of src/core/batch.js and `scopeHash` of src/core/hash.js. The `by module` totals,
-- which are only reported, are left out.
use eco_green_zoho_migration.Base.{
  ℕ, Text, Bool, true, false, ◌&&◌, Option, none, some, List, [], ◌∷◌, filter, map, length,
  if◌then◌else◌, truthy, or_empty, trim, text_lt, ◌==◌, text_Eq, option_text_Eq, ℤ, pos, ◌+ℤ◌,
}
use eco_green_zoho_migration.Money.{Parsed, refused, parse_money, format_money}
use eco_green_zoho_migration.Errors.{money_error}
use eco_green_zoho_migration.Store.{Action, pure, throw, gets, ◌>>=◌, Voucher, Disposition}

pub record Identity : Type 0 where
  pub id : Text
  pub payload_hash : Text

-- The argument of `scopeHash`.
pub record ScopeKey : Type 0 where
  pub identities : List Identity
  pub mapping_version : Option Text
  pub transformation_version : Option Text
  pub cutover_rule_version : Option Text

abbrev pub insert_by {ℓ} : {A : Type ℓ} → (A → Text) → A → List A → List A
insert_by key a [] = a ∷ []
insert_by key a (b ∷ bs) = if text_lt (key a) (key b) then a ∷ b ∷ bs else b ∷ insert_by key a bs

-- `sort`, which keeps the order of equal keys: each element goes in after those that it equals.
abbrev pub sort_onto {ℓ} : {A : Type ℓ} → (A → Text) → List A → List A → List A
sort_onto key [] sorted = sorted
sort_onto key (a ∷ rest) sorted = sort_onto key rest (insert_by key a sorted)

abbrev pub sort_by {ℓ} : {A : Type ℓ} → (A → Text) → List A → List A
sort_by key xs = sort_onto key xs []

-- `sortDeep`: strings are trimmed, and null is ''.
abbrev canonical : ScopeKey → ScopeKey
canonical k = record {
  identities =
      map (λ i. record { id = trim i.id; payload_hash = trim i.payload_hash })
        (sort_by (λ i. i.id) k.identities);
  mapping_version = some (trim (or_empty k.mapping_version));
  transformation_version = some (trim (or_empty k.transformation_version));
  cutover_rule_version = some (trim (or_empty k.cutover_rule_version));
}

-- `digest` is the SHA-256 of the JSON text of what it is given.
unfoldable pub scope_hash : (digest : ScopeKey → Text) → ScopeKey → Text
scope_hash digest k = digest (canonical k)

-- Which vouchers a scope is computed over: `batchId` is none for a new batch.
pub record ScopeOf : Type 0 where
  pub run_id : Text
  pub branch_code : Text
  pub period : Text
  pub batch_id : Option Text

abbrev is_migrate : Disposition → Bool
is_migrate Disposition.migrate = true
is_migrate Disposition.pending = false
is_migrate Disposition.smart_pharma_excluded = false
is_migrate Disposition.other_excluded = false
is_migrate Disposition.blocked = false

-- `v.migration_batch_id == null || v.migration_batch_id === batchId`
abbrev pub is_unstamped_or : Option Text → Option Text → Bool
is_unstamped_or batch_id none = true
is_unstamped_or batch_id (some b) = batch_id == some b

unfoldable pub is_in_scope : ScopeOf → Voucher → Bool
is_in_scope q v =
    v.extraction_run_id == q.run_id
    && is_migrate v.disposition
    && v.branch_code == q.branch_code
    && v.period == q.period
    && truthy v.target_payload_hash
    && is_unstamped_or q.batch_id v.migration_batch_id

pub record Scope : Type 0 where
  pub vouchers : List Voucher
  pub mapping_version : Option Text
  pub transformation_version : Option Text
  pub cutover_rule_version : Option Text
  pub hash : Text
  pub voucher_count : ℕ
  pub debit_total : Text
  pub credit_total : Text

-- `[...versions].sort().at(-1) ?? null` of the versions that are not empty
abbrev later_of : Option Text → Option Text → Option Text
later_of none v = if truthy v then v else none
later_of (some l) v = if truthy v && text_lt l (or_empty v) then v else some l

abbrev last_version : (Voucher → Option Text) → Option Text → List Voucher → Option Text
last_version version latest [] = latest
last_version version latest (v ∷ vs) = last_version version (later_of latest (version v)) vs

abbrev plus_money : ℤ → Parsed → Action ℤ
plus_money total (Parsed.amount a) = pure (total +ℤ a)
plus_money total (refused e) = throw (money_error e)

unfoldable pub sum_money : (debits credits : ℤ) → List Voucher → Action (ℤ × ℤ)
sum_money debits credits [] = pure (debits, credits)
sum_money debits credits (v ∷ vs) = do
  d ← plus_money debits (parse_money (some v.debit_total))
  c ← plus_money credits (parse_money (some v.credit_total))
  sum_money d c vs

abbrev identity_of : Voucher → Identity
identity_of v = record {
  id = v.source_transaction_hash;
  payload_hash = or_empty v.target_payload_hash;
}

abbrev pub scope_over : (ScopeKey → Text) → List Voucher → ℤ × ℤ → Scope
scope_over digest vs totals =
    let mapping = last_version (λ v. v.mapping_version) none vs in
    let transformation = last_version (λ v. v.transformation_version) none vs in
    let cutover = last_version (λ v. v.disposition_rule_version) none vs in
    record {
      vouchers = vs;
      mapping_version = mapping;
      transformation_version = transformation;
      cutover_rule_version = cutover;
      hash = scope_hash digest (record {
        identities = map identity_of vs;
        mapping_version = mapping;
        transformation_version = transformation;
        cutover_rule_version = cutover;
      });
      voucher_count = length vs;
      debit_total = format_money totals.0;
      credit_total = format_money totals.1;
    }

unfoldable pub compute_scope : (ScopeKey → Text) → ScopeOf → Action Scope
compute_scope digest q = do
  vouchers ← gets λ s. filter (is_in_scope q) s.vouchers
  totals ← sum_money (pos 0) (pos 0) vouchers
  pure (scope_over digest vouchers totals)
