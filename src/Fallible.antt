-- ===== src/Fallible.antt =====
-- Calls that throw and touch no store: their chains, the walks over a list that stop at the first
-- error (`map`, `filter`, `reduce` with a callback that throws), and amounts read from columns.
pub mod Sums
use eco_green_zoho_migration.Base.{
  Bool, true, false, Option, none, some, List, [], ◌∷◌, if◌then◌else◌, Text, ℤ, pos, ◌+ℤ◌,
}
use eco_green_zoho_migration.Errors.{Error, Result, ok, err, money_error}
use eco_green_zoho_migration.Money.{Parsed, amount, refused, parse_money}

infixl 5 ◌>>=◌ ◌>>◌
-- A thrown error skips the rest of the call.
unfoldable pub ◌>>=◌ {ℓ κ} : {A : Type ℓ} {B : Type κ} → Result A → (A → Result B) → Result B
err thrown >>= rest = err thrown
ok value >>= rest = rest value

unfoldable pub ◌>>◌ {ℓ κ} : {A : Type ℓ} {B : Type κ} → Result A → Result B → Result B
m >> k = m >>= λ _. k

unfoldable pub throw_when : Bool → Error → Result (Unit {0})
throw_when true e = err e
throw_when false e = ok tt

unfoldable pub or_err {ℓ} : {A : Type ℓ} → Option A → Error → Result A
or_err none e = err e
or_err (some a) e = ok a

module _ {ℓ κ} {A : Type ℓ} {B : Type κ} where
  -- `xs.map(f)`
  unfoldable pub map_ok : (A → Result B) → List A → Result (List B)
  map_ok f [] = ok []
  map_ok f (x ∷ xs) = f x >>= λ y. map_ok f xs >>= λ ys. ok (y ∷ ys)

module _ {ℓ} {A : Type ℓ} where
  -- `xs.filter(p)`
  unfoldable pub filter_ok : (A → Result Bool) → List A → Result (List A)
  filter_ok p [] = ok []
  filter_ok p (x ∷ xs) = p x >>= λ b. filter_ok p xs >>= λ ys. ok (if b then x ∷ ys else ys)

  -- `xs.reduce((t, x) => t + f(x), 0n)`
  unfoldable pub sum_from : (A → Result ℤ) → ℤ → List A → Result ℤ
  sum_from f total [] = ok total
  sum_from f total (x ∷ xs) = f x >>= λ a. sum_from f (total +ℤ a) xs

  abbrev pub sum_of : (A → Result ℤ) → List A → Result ℤ
  sum_of f xs = sum_from f (pos 0) xs

abbrev pub of_parsed : Parsed → Result ℤ
of_parsed (amount a) = ok a
of_parsed (refused e) = err (money_error e)

-- `parseMoney` of a column that is not null.
unfoldable pub read_money : Text → Result ℤ
read_money t = of_parsed (parse_money (some t))

-- Named on an `unfolding` line, this opens the chains above.
unfoldable pub steps : Unit {0}
unfolding ◌>>=◌ ◌>>◌ throw_when or_err map_ok filter_ok sum_from
steps = tt
