-- ===== src/Books/Guard.antt =====
-- src/books/guard.js: the one choke point before every write to Zoho Books.
use eco_green_zoho_migration.Base.{
  ◌≡◌, ◌↔◌, Bool, true, false, not, ◌&&◌, Option, none, some, List, [], ◌∷◌, ◌++◌, arith, ◌==◌,
  Text, text, text_Eq, includes, truthy, trim, if◌then◌else◌, or_empty,
}
use eco_green_zoho_migration.Errors.{
  Result, ok, err, posting_disabled, BlockedReason, driver_not_live, posting_enabled_false,
  no_authorization_ref, allowlist_empty, org_not_allowlisted, best_effort_claims, reads_blocked,
}

-- The fields of the config that the guard reads. `none` stands for a value of another type (an
-- authorization that is no string, an allowlist that is no array) or none at all; `posting_enabled`
-- says whether the field is strictly the boolean `true`.
pub record BooksConfig : Type 0 where
  pub driver : Text
  pub posting_enabled : Bool
  pub posting_authorization_ref : Option Text
  pub org_allowlist : Option (List Text)
  pub organization_id : Option Text

-- `store.claimSemantics`, if a store is given.
pub data ClaimSemantics : Type 0 where
  not_given atomic best_effort : ClaimSemantics

abbrev is_best_effort : ClaimSemantics → Bool
is_best_effort best_effort = true
is_best_effort atomic = false
is_best_effort not_given = false

unfoldable pub is_live : Option BooksConfig → Bool
is_live none = false
is_live (some c) = c.driver == text "live"

unfoldable pub is_enabled : Option BooksConfig → Bool
is_enabled none = false
is_enabled (some c) = c.posting_enabled

abbrev allowlist_of : Option BooksConfig → List Text
allowlist_of none = []
allowlist_of (some c) = elim c.org_allowlist [ none ↦ [] | some orgs ↦ orgs ]

abbrev is_empty : {A : Type 0} → List A → Bool
is_empty [] = true
is_empty (x ∷ xs) = false

unfoldable pub has_non_empty_allowlist : Option BooksConfig → Bool
has_non_empty_allowlist c = not (is_empty (allowlist_of c))

abbrev has_text : Option Text → Bool
has_text none = false
has_text (some r) = not (is_empty (trim r))

unfoldable pub has_authorization_ref : Option BooksConfig → Bool
has_authorization_ref none = false
has_authorization_ref (some c) = has_text c.posting_authorization_ref

abbrev organization_of : Option BooksConfig → Option Text
organization_of none = none
organization_of (some c) = c.organization_id

unfoldable pub is_org_allowlisted : Option BooksConfig → Bool
is_org_allowlisted c =
    truthy (organization_of c)
    && has_non_empty_allowlist c
    && includes (allowlist_of c) (or_empty (organization_of c))

unfoldable pub is_posting_enabled : Option BooksConfig → Bool
is_posting_enabled c =
    if not (is_live c)
    then false
    else if not (is_enabled c)
    then false
    else if not (has_authorization_ref c)
    then false
    else if not (is_org_allowlisted c)
    then false
    else true

abbrev refuse : BlockedReason → Result (Unit {0})
refuse r = err (posting_disabled r)

unfoldable pub assert_posting_allowed : Option BooksConfig → ClaimSemantics → Result (Unit {0})
assert_posting_allowed c semantics =
    if not (is_live c)
    then refuse driver_not_live
    else if not (is_enabled c)
    then refuse posting_enabled_false
    else if not (has_authorization_ref c)
    then refuse no_authorization_ref
    else if not (has_non_empty_allowlist c)
    then refuse allowlist_empty
    else if not (is_org_allowlisted c)
    then refuse org_not_allowlisted
    else if is_best_effort semantics
    then refuse best_effort_claims
    else ok tt

abbrev unless : Bool → BlockedReason → List BlockedReason
unless true r = []
unless false r = r ∷ []

unfoldable pub posting_blocked_reasons : Option BooksConfig → ClaimSemantics → List BlockedReason
posting_blocked_reasons c semantics =
    unless (is_live c) driver_not_live
    ++ (unless (is_enabled c) posting_enabled_false
        ++ (unless (has_authorization_ref c) no_authorization_ref
            ++ (unless (is_org_allowlisted c) org_not_allowlisted
                ++ unless (not (is_best_effort semantics)) best_effort_claims)))

-- `assertOrgAllowed`: a live driver reads only the organisations that it is allowed.
unfoldable pub assert_org_allowed : Option BooksConfig → Result (Unit {0})
assert_org_allowed c =
    if not (is_live c)
    then ok tt
    else if not (has_non_empty_allowlist c)
    then refuse reads_blocked
    else if not (is_org_allowlisted c)
    then refuse reads_blocked
    else ok tt

-- The tests stay shut below: what follows rests on how they are combined.
org_allowlisted-non_empty :
    (c : Option BooksConfig) → is_org_allowlisted c ≡ true → has_non_empty_allowlist c ≡ true
unfolding is_org_allowlisted
org_allowlisted-non_empty c h = ground arith

-- The guard lets a write through exactly when the health report lists no reason against it; and
-- without a store it lets a write through exactly when `isPostingEnabled` says so.
pub allowed_iff_no_reasons :
    (c : Option BooksConfig) (semantics : ClaimSemantics)
    → ((assert_posting_allowed c semantics ≡ ok tt) ↔ (posting_blocked_reasons c semantics ≡ []))
      × ((assert_posting_allowed c not_given ≡ ok tt) ↔ (is_posting_enabled c ≡ true))
unfolding assert_posting_allowed posting_blocked_reasons is_posting_enabled
allowed_iff_no_reasons c semantics =
    let non_empty = org_allowlisted-non_empty c in
    ((ground arith, ground arith), (ground arith, ground arith))
