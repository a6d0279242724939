-- ===== src/Summarise/Keys.antt =====
-- The keys of the two maps tell ledgers apart, where no ledger code holds a NUL.
use eco_green_zoho_migration.Base.{ℕ, Text, ◌≡◌, refl, ap, false, [], ◌∷◌, ◌++◌, All, nat_eq, arith}
use eco_green_zoho_migration.Store.Rows.{SourceLine}
use eco_green_zoho_migration.Summarise.{Group, type_key}

abbrev pub IsNulFree : Text → Type 0
IsNulFree s = All (λ c. nat_eq c 0 ≡ false) s

head_or : ℕ → Text → ℕ
head_or d [] = d
head_or d (c ∷ s) = c

tail_of : Text → Text
tail_of [] = []
tail_of (c ∷ s) = s

head_eq : (c d : ℕ) (s t : Text) → c ∷ s ≡ d ∷ t → c ≡ d
unfolding head_or
head_eq c d s t h = ap (head_or 0) h

tail_eq : (c d : ℕ) (s t : Text) → c ∷ s ≡ d ∷ t → s ≡ t
unfolding tail_of
tail_eq c d s t h = ap tail_of h

before_nul : (s t x y : Text) → IsNulFree s → IsNulFree t → s ++ 0 ∷ x ≡ t ++ 0 ∷ y → s ≡ t
before_nul [] [] x y p q h = refl
before_nul [] (d ∷ t) x y p q h = let e = head_eq 0 d x (t ++ 0 ∷ y) h in absurd (ground arith)
before_nul (c ∷ s) [] x y p q h = let e = head_eq c 0 (s ++ 0 ∷ x) y h in absurd (ground arith)
before_nul (c ∷ s) (d ∷ t) x y p q h =
    let e = head_eq c d (s ++ 0 ∷ x) (t ++ 0 ∷ y) h in
    let rest = before_nul s t x y p.1 q.1 (tail_eq c d (s ++ 0 ∷ x) (t ++ 0 ∷ y) h) in
    rw e (rw rest refl)

-- An entry of the map by type, and one of the map of rollups.
abbrev pub IsTyped : Group → Type 0
IsTyped g = (g.group_key ≡ g.ledger_code ++ 0 ∷ g.voucher_type) × IsNulFree g.ledger_code

abbrev pub IsRollup : Group → Type 0
IsRollup g = g.group_key ≡ g.ledger_code

pub IsTyped-ledger :
    (g : Group) (l : SourceLine)
    → IsNulFree l.ledger_code
    → IsTyped g
    → g.group_key ≡ type_key l
    → g.ledger_code ≡ l.ledger_code
IsTyped-ledger g l n h e =
    before_nul g.ledger_code l.ledger_code g.voucher_type l.voucher_type h.1 n (rw h.0 at e)
