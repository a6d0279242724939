-- ===== src/Balance/Near.antt =====
-- Two amounts within a tolerance of each other, as inequalities.
use eco_green_zoho_migration.Base.{
  ◌≡◌, ◌↔◌, ◌≤◌, ◌+◌, true, ℤ, pos, negsuc, pos_part, neg_part, ◌+ℤ◌, ◌-ℤ◌, +ℤ_parts, -ℤ_parts, leb,
  arith,
}
use eco_green_zoho_migration.Money.{within_tolerance, abs}
use eco_green_zoho_migration.Balance.{residual_of, is_at_most}

abbrev pub IsAtMost : ℤ → ℤ → Type 0
IsAtMost a b = pos_part a + neg_part b ≤ pos_part b + neg_part a

-- Neither is greater than the other by more than the tolerance.
abbrev pub IsNear : (tolerance : ℤ) → ℤ → ℤ → Type 0
IsNear tolerance a b = IsAtMost a (b +ℤ tolerance) × IsAtMost b (a +ℤ tolerance)

abs_iff :
    (d t : ℤ)
    → (leb (abs d + neg_part t) (pos_part t) ≡ true) ↔ (
        (pos_part d + neg_part t ≤ pos_part t + neg_part d)
        × (neg_part d + neg_part t ≤ pos_part t + pos_part d))
abs_iff (pos n) t = (λ h. (ground arith, ground arith), λ h. ground arith)
abs_iff (negsuc n) t = (λ h. (ground arith, ground arith), λ h. ground arith)

pub within_iff :
    (b m s p a t : ℤ)
    → (within_tolerance (residual_of b m s p) a t ≡ true) ↔ IsNear t p (((b +ℤ m) +ℤ s) +ℤ a)
unfolding within_tolerance
within_iff b m s p a t =
    let sum = (b +ℤ m) +ℤ s in
    let r = p -ℤ sum in
    let (to, from) = abs_iff (r -ℤ a) t in
    let e = -ℤ_parts p sum in
    let f = -ℤ_parts r a in
    let g = +ℤ_parts sum a in
    let i = +ℤ_parts (sum +ℤ a) t in
    let j = +ℤ_parts p t in
    (
      λ h.
          let (x, y) = to h in
          (omega (arith, x, y, e, f, g, i, j), omega (arith, x, y, e, f, g, i, j)),
      λ (x, y). from (omega (arith, x, y, e, f, g, i, j), omega (arith, x, y, e, f, g, i, j)),
    )

pub at_most_iff :
    (b m s p t : ℤ) → (is_at_most (residual_of b m s p) t ≡ true) ↔ IsNear t p ((b +ℤ m) +ℤ s)
at_most_iff b m s p t =
    let sum = (b +ℤ m) +ℤ s in
    let (to, from) = abs_iff (p -ℤ sum) t in
    let e = -ℤ_parts p sum in
    let i = +ℤ_parts sum t in
    let j = +ℤ_parts p t in
    (
      λ h. let (x, y) = to h in (omega (arith, x, y, e, i, j), omega (arith, x, y, e, i, j)),
      λ (x, y). from (omega (arith, x, y, e, i, j), omega (arith, x, y, e, i, j)),
    )
