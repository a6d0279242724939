-- ===== src/Store/Logic.antt =====
-- Reasoning about calls: what a successful chain has done, and what every call keeps.
use eco_green_zoho_migration.Base.{
  none, some, Option, ◌≡◌, refl, Bool, true, false, List, [], ◌∷◌, ◌++◌, All, if◌then◌else◌, find,
  arith,
}
use eco_green_zoho_migration.Errors.{Error, Result, ok, err}
use eco_green_zoho_migration.Store.Monad.{
  chains, continue, Store, pure, throw, gets, modify, lift, or_throw, Action, throw_if, for_each,
  ◌>>=◌, ◌>>◌,
}
use eco_green_zoho_migration.Store.Calls.{update_rows}

continue-eq-ok {ℓ κ} :
    {A : Type ℓ} {B : Type κ} (r : Result A × Store) (f : A → Action B) {b : B} {u : Store}
    → continue r f ≡ (ok b, u)
    → (a : A) × (t : Store) × (r ≡ (ok a, t)) × (f a t ≡ (ok b, u))
continue-eq-ok (ok a, t) f h = (a, t, refl, h)
continue-eq-ok (err e, t) f h = cc

-- A chain that succeeds has passed through the success of its first step.
pub >>=-eq-ok {ℓ κ} :
    {A : Type ℓ} {B : Type κ} (m : Action A) (f : A → Action B) (s : Store) {b : B} {u : Store}
    → (m >>= f) s ≡ (ok b, u)
    → (a : A) × (t : Store) × (m s ≡ (ok a, t)) × (f a t ≡ (ok b, u))
unfolding chains
>>=-eq-ok m f s h = continue-eq-ok (m s) f h

-- What a call keeps, whether it succeeds or throws.
pub record Keeps {ℓ κ} {A : Type ℓ} (P : Store → Type κ) (m : Action A) : Type κ where
  pub kept : (s : Store) → P s → P (m s).1

module _ {κ} {P : Store → Type κ} where
  continue-keeps {ℓ ℓ'} :
      {A : Type ℓ} {B : Type ℓ'} (r : Result A × Store) (f : A → Action B)
      → P r.1
      → ((a : A) → Keeps P (f a))
      → P (continue r f).1
  continue-keeps (ok a, t) f p k = (k a).kept t p
  continue-keeps (err e, t) f p k = p

  pub Keeps-bind {ℓ ℓ'} :
      {A : Type ℓ} {B : Type ℓ'} {m : Action A} {f : A → Action B}
      → Keeps P m
      → ((a : A) → Keeps P (f a))
      → Keeps P (m >>= f)
  unfolding chains
  Keeps-bind {m = m} {f = f} h k = record { kept = λ s p. continue-keeps (m s) f (h.kept s p) k }

  pub Keeps-then {ℓ ℓ'} :
      {A : Type ℓ} {B : Type ℓ'} {m : Action A} {k : Action B}
      → Keeps P m
      → Keeps P k
      → Keeps P (m >> k)
  unfolding chains
  Keeps-then h k = Keeps-bind h (λ _. k)

  pub Keeps-guard {ℓ} :
      {B : Type ℓ} (c : Bool) (e : Error) {m : Action B}
      → (c ≡ false → Keeps P m)
      → Keeps P (throw_if c e >> m)
  unfolding chains
  Keeps-guard true e h = record { kept = λ s p. p }
  Keeps-guard false e h = record { kept = λ s p. (h refl).kept s p }

  pub Keeps-throw_if : (c : Bool) (e : Error) → Keeps P (throw_if c e)
  unfolding chains
  Keeps-throw_if true e = record { kept = λ s p. p }
  Keeps-throw_if false e = record { kept = λ s p. p }

  pub Keeps-pure {ℓ} : {A : Type ℓ} (a : A) → Keeps P (pure a)
  unfolding chains
  Keeps-pure a = record { kept = λ s p. p }

  pub Keeps-throw {ℓ} : {A : Type ℓ} (e : Error) → Keeps P (throw {A = A} e)
  unfolding chains
  Keeps-throw e = record { kept = λ s p. p }

  pub Keeps-gets {ℓ} : {A : Type ℓ} (f : Store → A) → Keeps P (gets f)
  unfolding chains
  Keeps-gets f = record { kept = λ s p. p }

  pub Keeps-lift {ℓ} : {A : Type ℓ} (r : Result A) → Keeps P (lift r)
  unfolding chains
  Keeps-lift r = record { kept = λ s p. p }

  pub Keeps-or_throw {ℓ} : {A : Type ℓ} (o : Option A) (e : Error) → Keeps P (or_throw o e)
  unfolding chains
  Keeps-or_throw none e = record { kept = λ s p. p }
  Keeps-or_throw (some a) e = record { kept = λ s p. p }

  pub Keeps-modify : (f : Store → Store) → ((s : Store) → P s → P (f s)) → Keeps P (modify f)
  unfolding chains
  Keeps-modify f h = record { kept = h }

  pub Keeps-for_each {ℓ} :
      {A : Type ℓ} {f : A → Action (Unit {0})} (xs : List A)
      → ((x : A) → Keeps P (f x))
      → Keeps P (for_each xs f)
  unfolding chains
  Keeps-for_each [] h = record { kept = λ s p. p }
  Keeps-for_each (x ∷ xs) h = Keeps-bind (h x) (λ _. Keeps-for_each xs h)

module _ {ℓ κ} {R : Type ℓ} (P : R → Type κ) where
  pub All-update_rows :
      (p : R → Bool) (f : R → R) (rows : List R)
      → ((r : R) → p r ≡ true → P r → P (f r))
      → All P rows
      → All P (update_rows p f rows)
  All-update_rows p f [] h a = tt
  All-update_rows p f (r ∷ rows) h (a, rest) = (here (p r) refl, All-update_rows p f rows h rest)
    where
      here : (b : Bool) → p r ≡ b → P (if b then f r else r)
      here true e = h r e a
      here false e = a

  pub All-append : (xs ys : List R) → All P xs → All P ys → All P (xs ++ ys)
  All-append [] ys a b = b
  All-append (x ∷ xs) ys (a, rest) b = (a, All-append xs ys rest b)

-- A row that is found passes the test.
pub find_holds {ℓ} :
    {R : Type ℓ} (p : R → Bool) (rows : List R) (row : R) → find p rows ≡ some row → p row ≡ true
find_holds p [] row h = cc
find_holds p (r ∷ rows) row h = ground (arith, find_holds p rows row)

-- The row that is found is the one that was updated.
pub find-update_rows {ℓ} :
    {R : Type ℓ} (p : R → Bool) (f : R → R) (rows : List R) (row : R)
    → find p rows ≡ some row
    → p (f row) ≡ true
    → find p (update_rows p f rows) ≡ some (f row)
find-update_rows p f [] row h k = cc
find-update_rows p f (r ∷ rows) row h k = ground (arith, find-update_rows p f rows row)
