-- ===== src/Balance.antt =====
-- src/core/balance_bridge.js: what explains the movement of each account between two snapshots.
pub mod Movement
pub mod Nets
pub mod Accounts
pub mod Near
pub mod Explained
use eco_green_zoho_migration.Base.{
  ℕ, ◌+◌, Text, text, Bool, true, false, not, ◌&&◌, Option, none, some, List, [], ◌∷◌, ◌++◌, map,
  every, includes, if◌then◌else◌, leb, ◌==◌, text_Eq, Eq, ℤ, pos, pos_part, neg_part, ◌+ℤ◌, ◌-ℤ◌,
}
use eco_green_zoho_migration.Errors.{Result, ok, err}
use eco_green_zoho_migration.Money.{format_money, within_tolerance, abs}
use eco_green_zoho_migration.Store.Rows.{ReconStatus}
use eco_green_zoho_migration.Batch.Scope.{sort_by}
use eco_green_zoho_migration.Fallible.{steps, ◌>>=◌, map_ok, read_money}

-- An object from account ids to amounts, as entries with different keys.
abbrev pub Amounts : Type 0
Amounts = List (Text × Text)

-- `toPaise(object[accountId])`: an id that is not there has '0.00'.
abbrev pub amount_of : Text → Amounts → Text
amount_of id [] = text "0.00"
amount_of id (e ∷ es) = if e.0 == id then e.1 else amount_of id es

pub record Inputs : Type 0 where
  pub baseline : Amounts
  pub migration : Amounts
  pub sp : Amounts
  pub post_run : Amounts
  pub authorized_manual : Amounts
  pub manual_observed : Amounts
  pub tolerance : Text

-- `new Set([...])` of the keys, sorted
abbrev pub add_keys : List Text → Amounts → List Text
add_keys ids [] = ids
add_keys ids (e ∷ es) = add_keys (if includes ids e.0 then ids else ids ++ e.0 ∷ []) es

unfoldable pub account_ids : Inputs → List Text
account_ids x =
    let named =
      add_keys
        (add_keys
          (add_keys (add_keys (add_keys (add_keys [] x.baseline) x.migration) x.sp) x.post_run)
          x.authorized_manual)
        x.manual_observed in
    sort_by (λ id. id) named

pub record Account : Type 0 where
  pub account_id : Text
  pub baseline : Text
  pub migration : Text
  pub sp : Text
  pub manual : Text
  pub manual_observed : Text
  pub post_run : Text
  pub unexplained : Text
  pub matches : Bool  -- `status` is MATCH

-- What the manual movements are left to explain.
abbrev pub residual_of : (baseline migration sp post_run : ℤ) → ℤ
residual_of baseline migration sp post_run = post_run -ℤ ((baseline +ℤ migration) +ℤ sp)

-- `moneyAbs(a) <= tolerance`
abbrev pub is_at_most : ℤ → ℤ → Bool
is_at_most a tolerance = leb (abs a + neg_part tolerance) (pos_part tolerance)

unfoldable pub explain_account : Inputs → ℤ → Text → Result Account
unfolding steps
explain_account x tolerance id = do
  baseline ← read_money (amount_of id x.baseline)
  migration ← read_money (amount_of id x.migration)
  sp ← read_money (amount_of id x.sp)
  post_run ← read_money (amount_of id x.post_run)
  authorized ← read_money (amount_of id x.authorized_manual)
  observed ← read_money (amount_of id x.manual_observed)
  let residual = residual_of baseline migration sp post_run
  let explained = within_tolerance residual authorized tolerance
  let unexplained = if explained then pos 0 else residual
  ok (record {
    account_id = id;
    baseline = format_money baseline;
    migration = format_money migration;
    sp = format_money sp;
    manual = format_money (if explained then residual else pos 0);
    manual_observed = format_money observed;
    post_run = format_money post_run;
    unexplained = format_money unexplained;
    matches = is_at_most unexplained tolerance;
  })

pub record BalanceBridge : Type 0 where
  pub status : ReconStatus
  pub accounts : List Account

unfoldable pub compute_balance_bridge : Inputs → Result BalanceBridge
unfolding steps
compute_balance_bridge x = do
  tolerance ← read_money x.tolerance
  accounts ← map_ok (explain_account x tolerance) (account_ids x)
  ok (record {
    status = if every (λ a. a.matches) accounts then ReconStatus.pass else ReconStatus.fail;
    accounts = accounts;
  })
