-- ===== src/Transform/Stamped.antt =====
-- What the transformation leaves of a voucher.
use eco_green_zoho_migration.Base.{
  Text, ◌≡◌, ◌⊎◌, true, false, Option, none, some, List, [], ◌∷◌, ◌++◌, find, exists, ◌==◌, text_Eq,
  nat_Eq, option_text_Eq, text,
}
use eco_green_zoho_migration.Errors.{Result, ok, err, unmapped_entity}
use eco_green_zoho_migration.Mapping.{MappingRule, resolve_rule}
use eco_green_zoho_migration.Store.{Store, Voucher}
use eco_green_zoho_migration.Audit.{Context}
use eco_green_zoho_migration.Transform.Payload.{Payload}
use eco_green_zoho_migration.Transform.Document.{build_payload}
use eco_green_zoho_migration.Transform.Run.{
  Encoding, is_preview_of, preview_of, stamped, lines_of, blocked_unmapped,
}

abbrev pub row_of : Voucher → Store → Option Voucher
row_of v s = find (λ x. x.id == v.id) s.vouchers

-- The voucher is blocked for a rule that is missing.
abbrev pub IsBlocked : Voucher → Store → Type 0
IsBlocked v t = row_of v t ≡ some (blocked_unmapped v)

-- The voucher carries the hash of the document that was built of its lines, and a preview with its key is
-- there: the one that was there before, or, if none was, the one of this document.
abbrev pub IsStampedWith :
    Encoding → Context → (version : Text) → MappingRule → Payload → Voucher → Store → Store → Type 0
IsStampedWith e ctx version route p v s t =
    (row_of v t ≡ some (stamped e version route p v))
    × (exists (is_preview_of v version route.mapping_version) s.preview_payloads ≡ true
        → t.preview_payloads ≡ s.preview_payloads)
    × (exists (is_preview_of v version route.mapping_version) s.preview_payloads ≡ false
        → t.preview_payloads ≡ s.preview_payloads ++ preview_of e ctx v version route p ∷ [])

-- The rule by which the mapping routes a voucher: the MODULE_ROUTE of its type on its own date.
abbrev pub routes : List MappingRule → Voucher → Result (Option MappingRule)
routes rules v = resolve_rule rules (record {
  rule_type = text "MODULE_ROUTE";
  source_key = v.source_transaction_type;
  on_date = v.transaction_date;
})

-- No rule routes the voucher, or its document lacks one.
abbrev pub IsUnmapped : (run_id : Text) → List MappingRule → Voucher → Store → Type 0
IsUnmapped run_id rules v s =
    (routes rules v ≡ ok none)
    ⊎ ((route : MappingRule) × (rule_type : Text) × (source_key : Option Text) × (routes rules v
          ≡ ok (some route))
        × (build_payload route.target_value rules v (lines_of run_id v s)
            ≡ err (unmapped_entity rule_type source_key)))

-- The two ways in which `transformRun` leaves a voucher that it has dealt with.
abbrev pub IsDealtWith :
    Encoding
    → Context
    → (run_id version : Text) → List MappingRule
    → Voucher
    → Store
    → Store
    → Type 0
IsDealtWith e ctx run_id version rules v s t =
    (IsUnmapped run_id rules v s × IsBlocked v t)
    ⊎ ((route : MappingRule) × (p : Payload) × (routes rules v ≡ ok (some route))
        × (build_payload route.target_value rules v (lines_of run_id v s) ≡ ok p)
        × IsStampedWith e ctx version route p v s t)
