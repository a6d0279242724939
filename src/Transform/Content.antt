-- ===== src/Transform/Content.antt =====
-- The content lines of a voucher: what their document's items amount to.
use eco_green_zoho_migration.Base.{
  Text, ◌≡◌, refl, sym, ap, ◌∙◌, Bool-cases, Bool, true, false, not, some, List, [], ◌∷◌, ◌==◌, ℤ,
  pos, ◌+ℤ◌, int_Eq, eq_ℤ_iff, All, arith, ◌⊎◌, inl, inr, ◌||◌,
}
use eco_green_zoho_migration.Errors.{Result, ok, invalid_target_type}
use eco_green_zoho_migration.Money.{format_money}
use eco_green_zoho_migration.Mapping.{MappingRule}
use eco_green_zoho_migration.Store.Rows.{Voucher, SourceLine}
use eco_green_zoho_migration.Fallible.{steps, map_ok, sum_of, read_money}
use eco_green_zoho_migration.Fallible.Sums.{
  total, bind-eq-ok, ok-injective, sum_of-total, map_ok-cons, map_ok-split, filter_ok-split,
  zero_+ℤ, read_money-format_money, throw_when-passed,
}
use eco_green_zoho_migration.Transform.Payload.{LineItem}
use eco_green_zoho_migration.Transform.Effects
use eco_green_zoho_migration.Transform.Build.{
  Side, debit_side, credit_side, line_amount, is_non_zero, side_amount, lines_on, content_item,
  first_non_zero, account_for, maybe_tax_value, side_total, other_side, select_content_lines,
  is_empty,
}

abbrev amount_on : Side → SourceLine → Result ℤ
amount_on side l = read_money (side_amount side l)

-- Whether a line is non-zero on a side, by its amount there.
is_non_zero-reads :
    (t : Text) (b : Bool)
    → is_non_zero t ≡ ok b
    → (n : ℤ) × (read_money t ≡ ok n) × (b ≡ not (n == pos 0))
unfolding is_non_zero
is_non_zero-reads t b h =
    let (n, p, q) = bind-eq-ok (read_money t) (λ a. ok (not (a == pos 0))) h in (n, p, cc q)

is_zero : (n : ℤ) → true ≡ not (n == pos 0) → (n == pos 0) ≡ false
is_zero n h = ground arith

line_amount-reads :
    (l : SourceLine) (t : Text)
    → line_amount l ≡ ok t
    → (d : ℤ) × (c : ℤ) × (read_money l.debit ≡ ok d)
      × (read_money l.credit ≡ ok c)
      × (t ≡ format_money (first_non_zero d c))
unfolding line_amount
line_amount-reads l t h =
    let (d, p, q) = bind-eq-ok (read_money l.debit) _ h in
    let (c, r, s) = bind-eq-ok (read_money l.credit) _ q in (d, c, p, r, cc s)

-- The amount that a document gives a line of this side is its amount on the side.
abbrev pub Fits : Side → SourceLine → Type 0
Fits side l =
    (t : Text)
    → line_amount l ≡ ok t
    → is_non_zero (side_amount side l) ≡ ok true
    → (n : ℤ) × (amount_on side l ≡ ok n) × (t ≡ format_money n)

pub debit_side-Fits : (l : SourceLine) → Fits debit_side l
debit_side-Fits l t h k =
    let (d, c, p, q, e) = line_amount-reads l t h in
    let (n, r, s) = is_non_zero-reads l.debit true k in
    let same : d ≡ n = cc in (n, r, rw (← same) (rw e (rw (is_zero d (rw (← same) at s)))))

-- As ingestion accepts a line: its debit or its credit is zero.
abbrev pub IsOneSided : SourceLine → Type 0
IsOneSided l = (is_non_zero l.debit ≡ ok false) ⊎ (is_non_zero l.credit ≡ ok false)

is_zero_side : (n : ℤ) → false ≡ not (n == pos 0) → (n == pos 0) ≡ true
is_zero_side n h = ground arith

pub credit_side-Fits : (l : SourceLine) → IsOneSided l → Fits credit_side l
credit_side-Fits l (inr z) t h k = absurd cc
credit_side-Fits l (inl z) t h k =
    let (d, c, p, q, e) = line_amount-reads l t h in
    let (m, r, s) = is_non_zero-reads l.debit false z in
    let same : d ≡ m = cc in (c, q, rw e (rw (is_zero_side d (rw (← same) at s))))

-- What an item of a document has been made of.
pub content_item-split :
    (rules : List MappingRule) (v : Voucher) (l : SourceLine) {li : LineItem}
    → content_item rules v l ≡ ok li
    → (t : Text) × (line_amount l ≡ ok t)
      × (li.amount ≡ some t)
      × (account_for rules v.transaction_date l ≡ ok li.account)
unfolding content_item steps
content_item-split rules v l {li} h =
    let (a, p, q) = bind-eq-ok (account_for rules v.transaction_date l) _ h in
    let (x, r, s) = bind-eq-ok (maybe_tax_value rules v.transaction_date _) _ q in
    let (t, y, z) = bind-eq-ok (line_amount l) _ s in
    (
      t,
      y,
      ap (λ i. i.amount) (sym (ok-injective z)),
      rw p (ap (λ i. ok i.account) (ok-injective z)),
    )

-- A line that the filter leaves out adds nothing.
skipped : (n : ℤ) (t : ℤ) → false ≡ not (n == pos 0) → n +ℤ t ≡ t
skipped n t h = rw ((eq_ℤ_iff n (pos 0)).0 (is_zero_side n h)) (zero_+ℤ t)

item-amount :
    (rules : List MappingRule) (v : Voucher) (side : Side) (l : SourceLine) {li : LineItem}
    → Fits side l
    → content_item rules v l ≡ ok li
    → is_non_zero (side_amount side l) ≡ ok true
    → (n : ℤ) × (amount_on side l ≡ ok n) × (Effects.line_amount li ≡ ok n)
unfolding Effects.line_amount
item-amount rules v side l f h k =
    let (t, p, q, r) = content_item-split rules v l h in
    let (n, e, g) = f t p k in (n, e, rw q (rw g (read_money-format_money n)))

-- The lines of a voucher that are not zero on a side come to what all its lines come to there.
abbrev KeepsTotal : Side → List SourceLine → List SourceLine → Type 0
KeepsTotal side lines kept =
    (ns : List ℤ) × (ms : List ℤ) × (map_ok (amount_on side) lines ≡ ok ns)
    × (map_ok (amount_on side) kept ≡ ok ms)
    × (total ns ≡ total ms)

-- Lines that a document's items give their amounts on the side.
abbrev IsItemised : Side → SourceLine → Type 0
IsItemised side l = Fits side l × (is_non_zero (side_amount side l) ≡ ok true)

lines_on-kept :
    (side : Side) (lines kept : List SourceLine)
    → lines_on side lines ≡ ok kept
    → KeepsTotal side lines kept × (All (Fits side) lines → All (IsItemised side) kept)
unfolding steps
lines_on-kept side [] kept h =
    let none_left : [] ≡ kept = ok-injective h in
    rw (← none_left) (([], [], refl, refl, refl), λ f. tt)
lines_on-kept side (l ∷ ls) kept h =
    let (b, ys, p, q, e) = filter_ok-split (λ x. is_non_zero (side_amount side x)) l ls h in
    let (n, r, s) = is_non_zero-reads (side_amount side l) b p in
    let ((ns, ms, t, u, g), fits) = lines_on-kept side ls ys q in
    rw e (elim (Bool-cases b) [
      | inl keeps ↦ rw keeps (
        (
          n ∷ ns,
          n ∷ ms,
          map_ok-cons (amount_on side) l ls r t,
          map_ok-cons (amount_on side) l ys r u,
          ap (λ m. n +ℤ m) g,
        ),
        λ f. ((f.0, rw keeps at p), fits f.1),
      )
      | inr left ↦ rw left (
        (
          n ∷ ns,
          ms,
          map_ok-cons (amount_on side) l ls r t,
          u,
          skipped n (total ns) (rw left at s) ∙ g,
        ),
        λ f. fits f.1,
      )
    ])

content-items :
    (rules : List MappingRule) (v : Voucher) (side : Side) (content : List SourceLine)
    (items : List LineItem)
    → All (IsItemised side) content
    → map_ok (content_item rules v) content ≡ ok items
    → map_ok Effects.line_amount items ≡ map_ok (amount_on side) content
unfolding steps
content-items rules v side [] items f k = rw (← ok-injective k) refl
content-items rules v side (l ∷ ls) items f k =
    let (li, lis, x, y, z) = map_ok-split (content_item rules v) l ls k in
    let (m, c, d) = item-amount rules v side l f.0.0 x f.0.1 in
    rw z (rw c (rw d (rw (content-items rules v side ls lis f.1 y))))

-- Two sides that a voucher's content lines were selected by.
pub select-split :
    (side : Side) (lines content : List SourceLine)
    → select_content_lines side lines ≡ ok content
    → (party : List SourceLine) × (t : ℤ) × (lines_on side lines ≡ ok content)
      × (lines_on (other_side side) lines ≡ ok party)
      × (side_total side content ≡ ok t)
      × (side_total (other_side side) party ≡ ok t)
unfolding select_content_lines
select-split side lines content h =
    let (kept, p, h1) = bind-eq-ok (lines_on side lines) _ h in
    let (party, q, h2) = bind-eq-ok (lines_on (other_side side) lines) _ h1 in
    let (some_lines, h3) =
      throw_when-passed (is_empty kept || is_empty party) invalid_target_type _ h2 in
    let (t, r, h4) = bind-eq-ok (side_total side kept) _ h3 in
    let (u, s, h5) = bind-eq-ok (side_total (other_side side) party) _ h4 in
    let (ties, h6) = throw_when-passed (not (t == u)) invalid_target_type (ok kept) h5 in
    let same : t ≡ u = (eq_ℤ_iff t u).0 (ground (arith, ties)) in
    (party, t, p ∙ h6, q, ap (side_total side) (sym (ok-injective h6)) ∙ r, s ∙ ap ok (sym same))

-- The content side, the party side and the items of a document all come to one amount.
pub content-total :
    (rules : List MappingRule) (v : Voucher) (side : Side) (lines content : List SourceLine)
    (items : List LineItem)
    → All (Fits side) lines
    → select_content_lines side lines ≡ ok content
    → map_ok (content_item rules v) content ≡ ok items
    → (t : ℤ) × (side_total side lines ≡ ok t)
      × (side_total (other_side side) lines ≡ ok t)
      × (sum_of Effects.line_amount items ≡ ok t)
unfolding select_content_lines
content-total rules v side lines content items f h k =
    let (party, t, p, q, r, s) = select-split side lines content h in
    let ((ns, ms, a, b, e), fits) = lines_on-kept side lines content p in
    let ((ns', ms', a', b', e'), fits') = lines_on-kept (other_side side) lines party q in
    let same : map_ok Effects.line_amount items ≡ ok ms =
      content-items rules v side content items (fits f) k ∙ b in
    let content_is : ok (total ms) ≡ ok t = sym (sum_of-total (amount_on side) content ms b) ∙ r in
    let party_is : ok (total ms') ≡ ok t =
      sym (sum_of-total (amount_on (other_side side)) party ms' b') ∙ s in
    (
      t,
      sum_of-total (amount_on side) lines ns a ∙ ap ok e ∙ content_is,
      sum_of-total (amount_on (other_side side)) lines ns' a' ∙ ap ok e' ∙ party_is,
      sum_of-total Effects.line_amount items ms same ∙ content_is,
    )
