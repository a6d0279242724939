-- ===== src/Money/Digits.antt =====
-- Decimal digits: `BigInt(text)` and `BigInt.prototype.toString`, of numbers that are not negative.
use eco_green_zoho_migration.Base.{
  ℕ, zero, suc, ◌+◌, ◌-◌, ◌*◌, ◌/◌, ◌%◌, ◌<◌, ◌≡◌, refl, Bool, true, ◌&&◌, [], ◌∷◌, ◌++◌, Text,
  every, leb, ltb, if◌then◌else◌, Bool-cases, inl, inr, arith,
}

abbrev pub is_digit : ℕ → Bool
is_digit c = leb b'0' c && leb c b'9'

value_from : ℕ → Text → ℕ
value_from acc [] = acc
value_from acc (c ∷ s) = value_from (acc * 10 + (c - b'0')) s

-- The number that a text of digits stands for; 0 for no digits (`whole || '0'`).
unfoldable pub digits_value : Text → ℕ
unfolding value_from
digits_value s = value_from 0 s

print_from : ℕ → ℕ → Text
print_from zero n = []
print_from (suc fuel) n =
    let rest = print_from fuel (n / 10) in
    if ltb n 10 then (b'0' + n) ∷ [] else rest ++ (b'0' + n % 10) ∷ []

-- A number has at most as many digits as its value, and one more for 0.
unfoldable pub print_digits : ℕ → Text
unfolding print_from
print_digits n = print_from (suc n) n

value_from-append :
    (acc : ℕ) (s : Text) (c : ℕ) → value_from acc (s ++ c ∷ []) ≡ value_from acc s * 10 + (c - b'0')
unfolding value_from
value_from-append acc [] c = refl
value_from-append acc (d ∷ s) c = value_from-append (acc * 10 + (d - b'0')) s c

value_from-print_from : (fuel n : ℕ) → n < fuel → value_from 0 (print_from fuel n) ≡ n
unfolding print_from
value_from-print_from zero n h = elim h [ ]
value_from-print_from (suc fuel) n h = elim (Bool-cases (ltb n 10)) [
  | inl small ↦ rw small (unfold value_from in omega arith)
  | inr big ↦ rw big (rw value_from-append (ground (arith, value_from-print_from fuel (n / 10))))
]

-- What is printed reads back.
pub digits_value-print_digits : (n : ℕ) → digits_value (print_digits n) ≡ n
unfolding digits_value print_digits
digits_value-print_digits n = value_from-print_from (suc n) n (omega arith)

every-append :
    (p : ℕ → Bool) (s t : Text) → every p s ≡ true → every p t ≡ true → every p (s ++ t) ≡ true
every-append p [] t h k = k
every-append p (c ∷ s) t h k = ground (arith, every-append p s t)

print_from-digits : (fuel n : ℕ) → every is_digit (print_from fuel n) ≡ true
unfolding print_from
print_from-digits zero n = refl
print_from-digits (suc fuel) n = ground (
  arith,
  every-append is_digit (print_from fuel (n / 10)) ((b'0' + n % 10) ∷ [])
      (print_from-digits fuel (n / 10)),
)

pub print_digits-digits : (n : ℕ) → every is_digit (print_digits n) ≡ true
unfolding print_digits
print_digits-digits n = print_from-digits (suc n) n

print_from-cons : (fuel n : ℕ) → (c : ℕ) × (s : Text) × (print_from (suc fuel) n ≡ c ∷ s)
unfolding print_from
print_from-cons zero n = elim (Bool-cases (ltb n 10)) [
  | inl small ↦ (b'0' + n, [], rw small)
  | inr big ↦ (b'0' + n % 10, [], rw big)
]
print_from-cons (suc fuel) n = elim (Bool-cases (ltb n 10)) [
  | inl small ↦ (b'0' + n, [], rw small)
  | inr big ↦
      let (c, s, e) = print_from-cons fuel (n / 10) in (c, s ++ (b'0' + n % 10) ∷ [], rw big (rw e))
]

-- At least one digit is printed.
pub print_digits-cons : (n : ℕ) → (c : ℕ) × (s : Text) × (print_digits n ≡ c ∷ s)
unfolding print_digits
print_digits-cons n = print_from-cons n n
