-- ===== src/Money.antt =====
-- src/core/money.js: amounts as whole paise (BigInt), parsed from and printed to decimal text.
pub mod Digits
pub mod RoundTrip
use eco_green_zoho_migration.Base.{
  suc, ℕ, ◌+◌, ◌-◌, ◌*◌, ◌/◌, ◌%◌, Bool, true, false, not, ◌&&◌, ◌||◌, Option, none, some, List, [],
  ◌∷◌, ◌++◌, Text, text, filter, every, exists, nat_eq, leb, ltb, if◌then◌else◌, trim, reverse,
  length, take, ℤ, pos, negsuc, ◌+ℤ◌, ◌-ℤ◌, pos_part, neg_part, eq_ℤ,
}
use Digits.{is_digit, digits_value, print_digits}

pub data MoneyError : Type 0 where
  money_parse money_precision : MoneyError

pub data Parsed : Type 0 where
  amount : ℤ → Parsed
  refused : MoneyError → Parsed

-- `s.startsWith('(') && s.endsWith(')')`, then `s.slice(1, -1)`: the text between the brackets.
abbrev drop_last : Text → Text
drop_last [] = []
drop_last (c ∷ []) = []
drop_last (c ∷ d ∷ s) = c ∷ drop_last (d ∷ s)

abbrev ends_with : ℕ → Text → Bool
ends_with k [] = false
ends_with k (c ∷ []) = nat_eq c k
ends_with k (c ∷ d ∷ s) = ends_with k (d ∷ s)

abbrev in_brackets : Text → Bool
in_brackets [] = false
in_brackets (c ∷ s) = nat_eq c b'(' && ends_with b')' (c ∷ s)

abbrev between_brackets : Text → Text
between_brackets [] = []
between_brackets (c ∷ s) = drop_last s

abbrev starts_with : ℕ → Text → Bool
starts_with k [] = false
starts_with k (c ∷ s) = nat_eq c k

abbrev rest_of : Text → Text
rest_of [] = []
rest_of (c ∷ s) = s

-- `s.split('.')`, of a text with at most one point: what stands before it, and after it.
whole_part : Text → Text
whole_part [] = []
whole_part (c ∷ s) = if nat_eq c b'.' then [] else c ∷ whole_part s

frac_part : Text → Text
frac_part [] = []
frac_part (c ∷ s) = if nat_eq c b'.' then s else frac_part s

-- `/^\d*(\.\d*)?$/.test(s)`: digits, and digits after the first point if there is one.
is_amount : Text → Bool
is_amount s = every is_digit (whole_part s) && every is_digit (frac_part s)

abbrev drop_two : Text → Text
drop_two [] = []
drop_two (c ∷ []) = []
drop_two (c ∷ d ∷ s) = s

-- `(frac + '00').slice(0, 2)`
abbrev two_places : Text → Text
two_places frac = take 2 (frac ++ b'0' ∷ b'0' ∷ [])

abbrev is_point : Text → Bool
is_point [] = false
is_point (c ∷ []) = nat_eq c b'.'
is_point (c ∷ d ∷ s) = false

abbrev signed : Bool → ℕ → ℤ
signed false n = pos n
signed true n = pos 0 -ℤ pos n

-- What follows the sign: the pattern test, the precision test, the value in paise.
parse_unsigned : Bool → Text → Parsed
parse_unsigned negative s =
    if not (is_amount s) || is_point s
    then refused money_parse
    else if not (every (λ c. nat_eq c b'0') (drop_two (frac_part s)))
    then refused money_precision
    else amount (
        signed negative
          (digits_value (whole_part s) * 100 + digits_value (two_places (frac_part s))))

-- A leading '+' is dropped, then a leading '-' turns the sign.
parse_sign : Bool → Text → Parsed
parse_sign negative s =
    let s' = if starts_with b'+' s then rest_of s else s in
    if starts_with b'-' s'
    then parse_unsigned (not negative) (rest_of s')
    else parse_unsigned negative s'

abbrev without_commas : Text → Text
without_commas s = filter (λ c. not (nat_eq c b',')) s

parse_trimmed : Text → Parsed
parse_trimmed [] = amount (pos 0)
parse_trimmed (c ∷ s) =
    if in_brackets (c ∷ s)
    then parse_sign true (without_commas (between_brackets (c ∷ s)))
    else parse_sign false (without_commas (c ∷ s))

unfoldable pub parse_money : Option Text → Parsed
unfolding parse_trimmed parse_sign parse_unsigned is_amount whole_part frac_part
parse_money none = amount (pos 0)
parse_money (some s) = parse_trimmed (trim s)

abbrev is_negative : ℤ → Bool
is_negative (pos n) = false
is_negative (negsuc n) = true

abbrev pub abs : ℤ → ℕ
abs (pos n) = n
abs (negsuc n) = suc n

-- The two digits after the point, `padStart(2, '0')`.
abbrev frac_digits : ℕ → Text
frac_digits n = (b'0' + n % 100 / 10) ∷ (b'0' + n % 10) ∷ []

unfoldable pub print_unsigned : ℕ → Text
print_unsigned n = print_digits (n / 100) ++ b'.' ∷ frac_digits n

unfoldable pub format_money : ℤ → Text
format_money a = if is_negative a then b'-' ∷ print_unsigned (abs a) else print_unsigned (abs a)

-- `withinTolerance`: |a - b| <= tolerance
unfoldable pub within_tolerance : ℤ → ℤ → ℤ → Bool
within_tolerance a b tolerance = leb (abs (a -ℤ b) + neg_part tolerance) (pos_part tolerance)
