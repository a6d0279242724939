-- ===== src/Exceptions/Evidence.antt =====
-- The categories of src/core/exceptions.js and its merge of evidence.
use eco_green_zoho_migration.Base.{
  Text, text, Bool, List, [], ◌∷◌, ◌++◌, exists, includes, if◌then◌else◌, ◌==◌, text_Eq,
}
use eco_green_zoho_migration.Store.{Json, null, scalar, array, object}

-- `CATEGORIES`
abbrev pub categories : List Text
categories =
    text "SCHEMA_FAILURE"
    ∷ text "MISSING_KEY"
    ∷ text "ORPHAN_RELATIONSHIP"
    ∷ text "DUPLICATE_SOURCE"
    ∷ text "DUPLICATE_FILE"
    ∷ text "UNMAPPED_ENTITY"
    ∷ text "UNMAPPED_MODULE"
    ∷ text "AMBIGUOUS_MAPPING"
    ∷ text "UNBALANCED_VOUCHER"
    ∷ text "INVALID_TARGET_TYPE"
    ∷ text "SMART_PHARMA_OVERLAP"
    ∷ text "CUTOVER_RULE_MISSING"
    ∷ text "LATE_OR_BACK_POSTED"
    ∷ text "API_VALIDATION_ERROR"
    ∷ text "AUTHENTICATION_ERROR"
    ∷ text "RATE_LIMIT"
    ∷ text "TRANSIENT_FAILURE"
    ∷ text "UNKNOWN_API_OUTCOME"
    ∷ text "TARGET_MISMATCH"
    ∷ text "RECONCILIATION_DIFFERENCE"
    ∷ text "POSTING_DISABLED"
    ∷ []

unfoldable pub is_category : Text → Bool
is_category c = includes categories c

-- `{ ...existing, ...incoming }`: a key that both have keeps its place and takes the new value.
abbrev has_key : Text → List (Text × Text) → Bool
has_key k fields = exists (λ f. f.0 == k) fields

abbrev set_key : Text × Text → List (Text × Text) → List (Text × Text)
set_key f [] = []
set_key f (g ∷ gs) = (if g.0 == f.0 then f else g) ∷ set_key f gs

abbrev put_key : Text × Text → List (Text × Text) → List (Text × Text)
put_key f fields = if has_key f.0 fields then set_key f fields else fields ++ f ∷ []

abbrev pub spread : List (Text × Text) → List (Text × Text) → List (Text × Text)
spread existing [] = existing
spread existing (f ∷ fs) = spread (put_key f existing) fs

-- `typeof null` is 'object', and null spreads to nothing.
unfoldable pub merge_evidence : Json → Json → Json
merge_evidence null incoming = incoming
merge_evidence (array xs) (array ys) = array (xs ++ ys)
merge_evidence (object xs) (object ys) = object (spread xs ys)
merge_evidence (object xs) null = object xs
merge_evidence (object xs) (array ys) = array ys
merge_evidence (object xs) (scalar t) = scalar t
merge_evidence (array xs) null = null
merge_evidence (array xs) (object ys) = object ys
merge_evidence (array xs) (scalar t) = scalar t
merge_evidence (scalar t) incoming = incoming
