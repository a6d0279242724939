-- ===== src/Transform/Payload.antt =====
-- The documents that `buildPayload` of src/core/transform.js makes, and the modules of Books that
-- they are for.
use eco_green_zoho_migration.Base.{
  Text, text, Option, none, some, List, if◌then◌else◌, ◌==◌, text_Eq,
}

-- The target modules of the source's `switch`.
pub data TargetModule : Type 0 where
  journal bill vendor_credit credit_note : TargetModule
  vendor_payment customer_payment expense bank_transfer : TargetModule

-- Which `case` of the `switch` a module's name selects; `none` is its `default`.
abbrev pub module_of : Text → Option TargetModule
module_of m =
    if m == text "journal"
    then some journal
    else if m == text "bill"
    then some bill
    else if m == text "vendor_credit"
    then some vendor_credit
    else if m == text "credit_note"
    then some credit_note
    else if m == text "vendor_payment"
    then some vendor_payment
    else if m == text "customer_payment"
    then some customer_payment
    else if m == text "expense"
    then some expense
    else if m == text "bank_transfer"
    then some bank_transfer
    else none

-- A field that a document has not is `none` (undefined).
pub record LineItem : Type 0 where
  pub account : Text
  pub amount : Option Text
  pub debit : Option Text
  pub credit : Option Text
  pub tax : Option Text

-- `source_hash` is `custom_fields.cf_migration_source_hash`; the other custom field is always null.
pub record Payload : Type 0 where
  pub vendor : Option Text
  pub contact : Option Text
  pub payment_mode : Option Text
  pub account : Option Text
  pub paid_through : Option Text
  pub from_account : Option Text
  pub to_account : Option Text
  pub amount : Option Text
  pub date : Text
  pub line_items : Option (List LineItem)
  pub notes : Option Text
  pub reference : Option Text
  pub location_id : Text
  pub reference_number : Text
  pub source_hash : Text
  pub warnings : List Text
