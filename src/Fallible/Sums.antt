-- ===== src/Fallible/Sums.antt =====
-- Sums of amounts: what a successful chain has passed through, and how totals combine.
use eco_green_zoho_migration.Base.{
  ◌≡◌, refl, Bool, true, false, List, [], ◌∷◌, if◌then◌else◌, ℤ, pos, ◌+ℤ◌, eq_of_parts, +ℤ_parts,
  arith, ◌++◌, sym, ap, -ℤ_parts, ◌-ℤ◌, pos_part, neg_part, ◌∙◌, All,
}
use eco_green_zoho_migration.Errors.{Result, ok, err, Error}
use eco_green_zoho_migration.Money.{format_money}
use eco_green_zoho_migration.Money.RoundTrip.{parse_money-format_money}
use eco_green_zoho_migration.Fallible.{
  steps, ◌>>=◌, ◌>>◌, map_ok, filter_ok, sum_from, sum_of, read_money, throw_when,
}

module _ {ℓ κ} {A : Type ℓ} {B : Type κ} where
  pub bind-eq-ok :
      (first : Result A) (rest : A → Result B) {y : B}
      → (first >>= rest) ≡ ok y
      → (x : A) × (first ≡ ok x) × (rest x ≡ ok y)
  unfolding ◌>>=◌
  bind-eq-ok (err thrown) rest h = cc
  bind-eq-ok (ok value) rest h = (value, refl, h)

  -- Where the call succeeds, its chain is the rest of it.
  pub bind-ok :
      {first : Result A} (rest : A → Result B) {x : A} {r : Result B}
      → first ≡ ok x
      → rest x ≡ r
      → (first >>= rest) ≡ r
  unfolding ◌>>=◌
  bind-ok rest h k = rw h k

-- Two chains from one call: where the first succeeds, the second follows it.
pub bind-follow {ℓ κ μ} :
    {A : Type ℓ} {B : Type κ} {C : Type μ} (m : Result A) {f : A → Result B} {g : A → Result C}
    {b : B} {c : C}
    → (m >>= f) ≡ ok b
    → ((a : A) → f a ≡ ok b → g a ≡ ok c)
    → (m >>= g) ≡ ok c
unfolding steps
bind-follow (ok a) h k = k a h
bind-follow (err e) h k = absurd cc

-- A guard that has been passed.
pub throw_when-passed {ℓ} :
    {A : Type ℓ} (b : Bool) (e : Error) (k : Result A) {a : A}
    → (throw_when b e >> k) ≡ ok a
    → (b ≡ false) × (k ≡ ok a)
unfolding steps
throw_when-passed true e k h = cc
throw_when-passed false e k h = (refl, h)

pub ok-injective {ℓ} : {A : Type ℓ} {a b : A} → ok a ≡ ok b → a ≡ b
ok-injective {a = a} h = ap (λ r. elim r [ ok x ↦ x | err e ↦ a ]) h

pub +ℤ_assoc : (a b c : ℤ) → (a +ℤ b) +ℤ c ≡ a +ℤ (b +ℤ c)
+ℤ_assoc a b c =
    eq_of_parts _ _
      (omega (arith, +ℤ_parts a b, +ℤ_parts (a +ℤ b) c, +ℤ_parts b c, +ℤ_parts a (b +ℤ c)))

pub +ℤ_comm : (a b : ℤ) → a +ℤ b ≡ b +ℤ a
+ℤ_comm a b = eq_of_parts _ _ (omega (arith, +ℤ_parts a b, +ℤ_parts b a))

pub +ℤ_zero : (a : ℤ) → a +ℤ pos 0 ≡ a
+ℤ_zero a = eq_of_parts _ _ (omega (arith, +ℤ_parts a (pos 0)))

pub zero_+ℤ : (a : ℤ) → pos 0 +ℤ a ≡ a
zero_+ℤ a = eq_of_parts _ _ (omega (arith, +ℤ_parts (pos 0) a))

pub +ℤ_shift : (t a b : ℤ) → (t +ℤ a) +ℤ b ≡ (t +ℤ b) +ℤ a
+ℤ_shift t a b = +ℤ_assoc t a b ∙ ap (λ x. t +ℤ x) (+ℤ_comm a b) ∙ sym (+ℤ_assoc t b a)

-- A difference that is added on one side of a balance.
pub net_step : (a b x y t u : ℤ) → a +ℤ u ≡ (b +ℤ (x -ℤ y)) +ℤ t → a +ℤ (y +ℤ u) ≡ b +ℤ (x +ℤ t)
net_step a b x y t u h = eq_of_parts _ _ (
    omega (
      arith,
      ap pos_part h,
      ap neg_part h,
      +ℤ_parts a u,
      -ℤ_parts x y,
      +ℤ_parts b (x -ℤ y),
      +ℤ_parts (b +ℤ (x -ℤ y)) t,
      +ℤ_parts y u,
      +ℤ_parts a (y +ℤ u),
      +ℤ_parts x t,
      +ℤ_parts b (x +ℤ t),
    ))

-- What is on both sides cancels.
pub +ℤ_cancel : (a b t : ℤ) → a +ℤ t ≡ b +ℤ t → a ≡ b
+ℤ_cancel a b t h =
    eq_of_parts _ _ (omega (arith, ap pos_part h, ap neg_part h, +ℤ_parts a t, +ℤ_parts b t))

-- The mathematical sum of a list.
abbrev pub total : List ℤ → ℤ
total [] = pos 0
total (a ∷ ns) = a +ℤ total ns

module _ {ℓ} {A : Type ℓ} where
  -- A sum is the total of the amounts, or the error of the first that cannot be read.
  pub sum_from-total :
      (f : A → Result ℤ) (acc : ℤ) (xs : List A)
      → sum_from f acc xs ≡ (map_ok f xs >>= λ ns. ok (acc +ℤ total ns))
  unfolding steps
  sum_from-total f acc [] = rw (+ℤ_zero acc)
  sum_from-total f acc (x ∷ xs) = step (f x) (λ a. sum_from-total f (acc +ℤ a) xs)
    where
      next :
          (r : Result (List ℤ)) (a : ℤ)
          → (r >>= λ ns. ok ((acc +ℤ a) +ℤ total ns))
            ≡ ((r >>= λ ns. ok (a ∷ ns)) >>= λ ns. ok (acc +ℤ total ns))
      next (ok ns) a = rw (+ℤ_assoc acc a (total ns))
      next (err e) a = refl

      step :
          (r : Result ℤ)
          → ((a : ℤ)
              → sum_from f (acc +ℤ a) xs ≡ (map_ok f xs >>= λ ns. ok ((acc +ℤ a) +ℤ total ns)))
          → (r >>= λ a. sum_from f (acc +ℤ a) xs)
            ≡ ((r >>= λ a. map_ok f xs >>= λ ns. ok (a ∷ ns)) >>= λ ns. ok (acc +ℤ total ns))
      step (ok a) h = rw (h a) (next (map_ok f xs) a)
      step (err e) h = refl

  pub sum_of-eq-ok :
      (f : A → Result ℤ) (xs : List A) {t : ℤ}
      → sum_of f xs ≡ ok t
      → (ns : List ℤ) × (map_ok f xs ≡ ok ns) × (t ≡ total ns)
  unfolding steps
  sum_of-eq-ok f xs h =
      let (ns, e, p) =
        bind-eq-ok (map_ok f xs) (λ ns. ok (pos 0 +ℤ total ns)) (rw sum_from-total at h) in
      (ns, e, cc (zero_+ℤ (total ns)))

  pub sum_of-total :
      (f : A → Result ℤ) (xs : List A) (ns : List ℤ)
      → map_ok f xs ≡ ok ns
      → sum_of f xs ≡ ok (total ns)
  unfolding steps
  sum_of-total f xs ns h = rw sum_from-total (rw h (rw zero_+ℤ))

  pub sum_of-two :
      (f : A → Result ℤ) (x y : A) {a b : ℤ}
      → f x ≡ ok a
      → f y ≡ ok b
      → sum_of f (x ∷ y ∷ []) ≡ ok (a +ℤ b)
  unfolding steps
  sum_of-two f x y {a} h k = rw h (rw k (rw zero_+ℤ))

  pub sum_of-eq-err :
      (f : A → Result ℤ) (xs : List A) {e : Error} → sum_of f xs ≡ err e → map_ok f xs ≡ err e
  unfolding steps
  sum_of-eq-err f xs h = first (map_ok f xs) (rw sum_from-total at h)
    where
      first :
          {e : Error} (r : Result (List ℤ))
          → (r >>= λ ns. ok (pos 0 +ℤ total ns)) ≡ err e
          → r ≡ err e
      first (ok ns) k = cc
      first (err e) k = cc

-- An amount that was printed is read ns itself.
pub read_money-format_money : (a : ℤ) → read_money (format_money a) ≡ ok a
unfolding read_money
read_money-format_money a = rw parse_money-format_money

pub total-append : (xs ys : List ℤ) → total (xs ++ ys) ≡ total xs +ℤ total ys
total-append [] ys = sym (zero_+ℤ (total ys))
total-append (x ∷ xs) ys = rw (total-append xs ys) (sym (+ℤ_assoc x (total xs) (total ys)))

module _ {ℓ κ} {A : Type ℓ} {B : Type κ} where
  -- One step of a walk that succeeds, in either direction.
  pub map_ok-cons :
      (f : A → Result B) (x : A) (xs : List A) {y : B} {ys : List B}
      → f x ≡ ok y
      → map_ok f xs ≡ ok ys
      → map_ok f (x ∷ xs) ≡ ok (y ∷ ys)
  unfolding steps
  map_ok-cons f x xs h k = rw h (rw k)

  -- Every call succeeds, so the walk does.
  pub map_ok-computed :
      (f : A → Result B) (xs : List A)
      → All (λ x. (y : B) × (f x ≡ ok y)) xs
      → (ys : List B) × (map_ok f xs ≡ ok ys)
  unfolding steps
  map_ok-computed f [] h = ([], refl)
  map_ok-computed f (x ∷ xs) h =
      let (y, p) = h.0 in let (ys, q) = map_ok-computed f xs h.1 in (y ∷ ys, map_ok-cons f x xs p q)

  pub map_ok-split :
      (f : A → Result B) (x : A) (xs : List A) {zs : List B}
      → map_ok f (x ∷ xs) ≡ ok zs
      → (y : B) × (ys : List B) × (f x ≡ ok y) × (map_ok f xs ≡ ok ys) × (zs ≡ y ∷ ys)
  unfolding steps
  map_ok-split f x xs h =
      let (y, p, q) = bind-eq-ok (f x) _ h in
      let (ys, r, s) = bind-eq-ok (map_ok f xs) _ q in (y, ys, p, r, cc)

  pub map_ok-one : (f : A → Result B) (x : A) {y : B} → f x ≡ ok y → map_ok f (x ∷ []) ≡ ok (y ∷ [])
  unfolding steps
  map_ok-one f x h = rw h

  pub map_ok-append :
      (f : A → Result B) (xs ys : List A) {us vs : List B}
      → map_ok f xs ≡ ok us
      → map_ok f ys ≡ ok vs
      → map_ok f (xs ++ ys) ≡ ok (us ++ vs)
  map_ok-append f [] ys {us} {vs} h k = unfold steps in cc
  map_ok-append f (x ∷ xs) ys {us} {vs} h k =
      let (u, us', p, q, e) = map_ok-split f x xs h in
      rw e (map_ok-cons f x (xs ++ ys) p (map_ok-append f xs ys q k))

pub filter_ok-split {ℓ} :
    {A : Type ℓ} (p : A → Result Bool) (x : A) (xs : List A) {zs : List A}
    → filter_ok p (x ∷ xs) ≡ ok zs
    → (b : Bool) × (ys : List A) × (p x ≡ ok b)
      × (filter_ok p xs ≡ ok ys)
      × (zs ≡ (if b then x ∷ ys else ys))
unfolding steps
filter_ok-split p x xs h =
    let (b, q, r) = bind-eq-ok (p x) _ h in
    let (ys, s, t) = bind-eq-ok (filter_ok p xs) _ r in (b, ys, q, s, cc)
