-- ===== src/Money/RoundTrip.antt =====
-- `parseMoney` reads back what `formatMoney` prints.
use eco_green_zoho_migration.Base.{
  ℕ, suc, ◌+◌, ◌*◌, ◌/◌, ◌%◌, ◌≡◌, refl, sym, ◌∙◌, ap, Bool, true, false, some, [], ◌∷◌, ◌++◌, Text,
  every, trim, is_space, arith, ℤ, pos, negsuc, ◌-ℤ◌,
}
use mathlib.Core.List.{append_assoc, reverse-append, reverse-reverse}
use eco_green_zoho_migration.Money.Digits.{
  is_digit, digits_value, print_digits, digits_value-print_digits, print_digits-cons,
  print_digits-digits,
}
use eco_green_zoho_migration.Money.{
  amount, parse_money, parse_trimmed, parse_sign, parse_unsigned, is_amount, whole_part, frac_part,
  without_commas, signed, is_point, format_money, print_unsigned, frac_digits,
}

-- A text that begins and ends with no white space is left alone.
trim_id :
    (c d : ℕ) (s : Text)
    → is_space c ≡ false
    → is_space d ≡ false
    → trim ((c ∷ s) ++ d ∷ []) ≡ (c ∷ s) ++ d ∷ []
unfolding trim
trim_id c d s p q = rw p (
    rw (reverse-append (c ∷ s) (d ∷ []))
      (rw q (rw (← reverse-append (c ∷ s) (d ∷ [])) (reverse-reverse _))))

whole_part-print : (ds r : Text) → every is_digit ds ≡ true → whole_part (ds ++ b'.' ∷ r) ≡ ds
unfolding whole_part
whole_part-print [] r h = refl
whole_part-print (c ∷ ds) r h = ground (arith, whole_part-print ds r)

frac_part-print : (ds r : Text) → every is_digit ds ≡ true → frac_part (ds ++ b'.' ∷ r) ≡ r
unfolding frac_part
frac_part-print [] r h = refl
frac_part-print (c ∷ ds) r h = ground (arith, frac_part-print ds r)

without_commas-print :
    (ds : Text) (a b : ℕ)
    → every is_digit ds ≡ true
    → is_digit a ≡ true
    → is_digit b ≡ true
    → without_commas (ds ++ b'.' ∷ a ∷ b ∷ []) ≡ ds ++ b'.' ∷ a ∷ b ∷ []
without_commas-print [] a b h p q = ground arith
without_commas-print (c ∷ ds) a b h p q = ground (arith, without_commas-print ds a b)

frac_digits-value : (n : ℕ) → digits_value (frac_digits n) ≡ n % 100
unfolding digits_value
frac_digits-value n = omega arith

is_amount-print :
    (ds : Text) (n : ℕ) → every is_digit ds ≡ true → is_amount (ds ++ b'.' ∷ frac_digits n) ≡ true
unfolding is_amount
is_amount-print ds n h =
    rw (whole_part-print ds (frac_digits n) h)
      (rw (frac_part-print ds (frac_digits n) h) (ground arith))

is_point-print : (c : ℕ) (s t : Text) (d : ℕ) → is_point ((c ∷ s) ++ d ∷ t) ≡ false
is_point-print c [] t d = refl
is_point-print c (e ∷ s) t d = refl

value_split : (n : ℕ) → n / 100 * 100 + n % 100 ≡ n
value_split n = omega arith

-- After the sign: the printed amount is read as its value.
parse_unsigned-print :
    (negative : Bool) (n : ℕ)
    → parse_unsigned negative (print_unsigned n) ≡ amount (signed negative n)
unfolding parse_unsigned print_unsigned
parse_unsigned-print negative n =
    let (c, s, e) = print_digits-cons (n / 100) in
    let ds = print_digits (n / 100) in
    let h = print_digits-digits (n / 100) in
    let p : is_point (ds ++ b'.' ∷ frac_digits n) ≡ false =
      rw e (is_point-print c s (frac_digits n) b'.') in
    rw (is_amount-print ds n h) (
      rw p (
        rw (whole_part-print ds (frac_digits n) h) (
          rw (frac_part-print ds (frac_digits n) h) (
            rw (digits_value-print_digits (n / 100))
              (rw (frac_digits-value n) (rw (value_split n)))))))

parse_sign-print :
    (n : ℕ) → parse_sign false (print_unsigned n) ≡ parse_unsigned false (print_unsigned n)
unfolding parse_sign print_unsigned
parse_sign-print n =
    let (c, s, e) = print_digits-cons (n / 100) in
    let h : every is_digit (c ∷ s) ≡ true = rw e at (print_digits-digits (n / 100)) in
    rw e (ground arith)

parse_sign-minus :
    (n : ℕ) → parse_sign false (b'-' ∷ print_unsigned n) ≡ parse_unsigned true (print_unsigned n)
unfolding parse_sign
parse_sign-minus n = refl

without_commas-unsigned : (n : ℕ) → without_commas (print_unsigned n) ≡ print_unsigned n
unfolding print_unsigned
without_commas-unsigned n =
    without_commas-print (print_digits (n / 100)) _ _ (print_digits-digits (n / 100)) (ground arith)
      (ground arith)

digit_not_space : (c : ℕ) → is_digit c ≡ true → is_space c ≡ false
unfolding is_space
digit_not_space c h = ground arith

-- The printed amount begins with a digit and ends with one.
print_unsigned-ends :
    (n : ℕ)
    → (c : ℕ) × (s : Text) × (d : ℕ) × (print_unsigned n ≡ (c ∷ s) ++ d ∷ [])
      × (is_digit c ≡ true)
      × (is_digit d ≡ true)
unfolding print_unsigned
print_unsigned-ends n =
    let (c, s, e) = print_digits-cons (n / 100) in
    let h : every is_digit (c ∷ s) ≡ true = rw e at (print_digits-digits (n / 100)) in
    (
      c,
      s ++ b'.' ∷ (b'0' + n % 100 / 10) ∷ [],
      b'0' + n % 10,
      rw e (
          ap (λ t. c ∷ t)
            (sym (append_assoc s (b'.' ∷ (b'0' + n % 100 / 10) ∷ []) ((b'0' + n % 10) ∷ [])))),
      ground arith,
      ground arith,
    )

parse_trimmed-digit :
    (c : ℕ) (t : Text)
    → is_digit c ≡ true
    → parse_trimmed (c ∷ t) ≡ parse_sign false (without_commas (c ∷ t))
unfolding parse_trimmed
parse_trimmed-digit c t h = ground arith

parse_trimmed-minus :
    (t : Text) → parse_trimmed (b'-' ∷ t) ≡ parse_sign false (b'-' ∷ without_commas t)
unfolding parse_trimmed
parse_trimmed-minus t = refl

signed-negsuc : (n : ℕ) → signed true (suc n) ≡ negsuc n
unfolding ◌-ℤ◌
signed-negsuc n = ground arith

parse_trimmed-print : (a : ℤ) → parse_trimmed (format_money a) ≡ amount a
unfolding format_money
parse_trimmed-print (pos n) =
    let (c, s, d, e, p, q) = print_unsigned-ends n in
    let head : parse_trimmed (print_unsigned n)
        ≡ parse_sign false (without_commas (print_unsigned n)) =
      rw e (parse_trimmed-digit c (s ++ d ∷ []) p) in
    head
    ∙ ap (parse_sign false) (without_commas-unsigned n)
    ∙ parse_sign-print n
    ∙ parse_unsigned-print false n
parse_trimmed-print (negsuc n) =
    parse_trimmed-minus (print_unsigned (suc n))
    ∙ ap (λ t. parse_sign false (b'-' ∷ t)) (without_commas-unsigned (suc n))
    ∙ parse_sign-minus (suc n)
    ∙ parse_unsigned-print true (suc n)
    ∙ ap amount (signed-negsuc n)

trim-format : (a : ℤ) → trim (format_money a) ≡ format_money a
unfolding format_money
trim-format (pos n) =
    let (c, s, d, e, p, q) = print_unsigned-ends n in
    rw e (trim_id c d s (digit_not_space c p) (digit_not_space d q))
trim-format (negsuc n) =
    let (c, s, d, e, p, q) = print_unsigned-ends (suc n) in
    rw e (trim_id b'-' d (c ∷ s) (unfold is_space in refl) (digit_not_space d q))

-- Every amount of paise, of either sign, that is printed is parsed back as itself, without error.
pub parse_money-format_money : (a : ℤ) → parse_money (some (format_money a)) ≡ amount a
unfolding parse_money
parse_money-format_money a = rw (trim-format a) (parse_trimmed-print a)
