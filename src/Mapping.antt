-- ===== src/Mapping.antt =====
-- `resolveRule` of src/core/mapping.js: the mapping rule that is in force for a key on a date.
pub mod InForce
use eco_green_zoho_migration.Base.{
  Text, text, Bool, true, false, not, ◌&&◌, ◌||◌, Option, none, some, List, [], ◌∷◌, filter, length,
  truthy, or_empty, text_lt, take, ◌==◌, text_Eq,
}
use eco_green_zoho_migration.Errors.{Result, ok, err, ambiguous_mapping}

-- A row of mapping_rules, with the columns that the choice reads.
pub record MappingRule : Type 0 where
  pub rule_type : Text
  pub source_key : Text
  pub status : Text
  pub effective_from : Option Text
  pub effective_to : Option Text
  pub target_value : Text
  pub mapping_version : Text
  pub notes : Option Text

-- What `resolveRule` is asked for.
pub record Asked : Type 0 where
  pub rule_type : Text
  pub source_key : Text
  pub on_date : Text

abbrev pub date_of : Option Text → Option Text
date_of none = none
date_of (some t) = some (take 10 t)

-- `if (from && target < from) return false; if (to && target > to) return false`
unfoldable pub is_in_window : Text → MappingRule → Bool
is_in_window target r =
    not (truthy (date_of r.effective_from) && text_lt target (or_empty (date_of r.effective_from)))
    && not (truthy (date_of r.effective_to) && text_lt (or_empty (date_of r.effective_to)) target)

unfoldable pub is_in_force : Asked → MappingRule → Bool
is_in_force a r =
    r.rule_type == a.rule_type
    && r.source_key == a.source_key
    && r.status == text "APPROVED"
    && is_in_window (take 10 a.on_date) r

abbrev pub by_matches : List MappingRule → Result (Option MappingRule)
by_matches [] = ok none
by_matches (r ∷ []) = ok (some r)
by_matches (r ∷ q ∷ more) = err (ambiguous_mapping (length (r ∷ q ∷ more)))

unfoldable pub resolve_rule : List MappingRule → Asked → Result (Option MappingRule)
resolve_rule rules a = by_matches (filter (is_in_force a) rules)
