-- ===== src/Tests/Stores.antt =====
-- Runs over a store: their classification, their transformation, and what a batch moved.
use eco_green_zoho_migration.Base.{
  text, text_eq, ◌≡◌, refl, some, [], ◌∷◌, pos, ◌+ℤ◌, All, trim, false,
}
use eco_green_zoho_migration.Errors.{operator, ok}
use eco_green_zoho_migration.States.{RunState, run_transitions, QueueState}
use eco_green_zoho_migration.Money.{parse_money, format_money, print_unsigned}
use eco_green_zoho_migration.Money.Digits.{digits_value, print_digits}
use eco_green_zoho_migration.Store.{Store, Disposition, calls, null, ExtractionRun}
use eco_green_zoho_migration.Audit.{emit}
use eco_green_zoho_migration.Fallible.{steps, read_money}
use eco_green_zoho_migration.Transform.Effects
use eco_green_zoho_migration.Transform.Build
use eco_green_zoho_migration.Transform.Run.{Encoding, transform_voucher}
use eco_green_zoho_migration.Balance.Movement
use eco_green_zoho_migration.Balance.Movement.{Movements, net_of}
use eco_green_zoho_migration.Balance.Nets.{movement_nets_to_zero}
use eco_green_zoho_migration.Classification
use eco_green_zoho_migration.Classification.Run
use eco_green_zoho_migration.Classification.Run.{classify_run}
use eco_green_zoho_migration.Classification.Pending.{is_pending_in}
use eco_green_zoho_migration.Classification.Settled.{classify_run_settles}
use eco_green_zoho_migration.Tests.Data.{voucher, empty_store, ctx_of, item_in, payload}
use eco_green_zoho_migration.Tests.Documents.{rules, lines, bill_doc}

abbrev encoding : Encoding
encoding = record { digest = λ p. p.source_hash; stringify = λ p. text "{}" }

abbrev staged : Store
staged = record empty_store { vouchers = voucher ∷ []; source_txn_lines = lines }

abbrev after_transform : Store
after_transform =
    (transform_voucher encoding (ctx_of operator (text "op")) (text "r1") (text "t1") rules voucher
      staged).1

-- One item of the batch is posted.
abbrev posted : Store
posted = record empty_store {
  vouchers = record voucher { target_module = some (text "bill") } ∷ [];
  queue_items = record { rows = item_in QueueState.posted ∷ []; last = 1 };
  preview_payloads = payload ∷ [];
}

movement_nets_to_zero_example :
    (moved : Movements) × (Movement.migration_movement (λ t. bill_doc) posted (text "b1")
      ≡ ok moved)
    × (net_of moved ≡ pos 0)
unfolding Effects.gl_effects Effects.effects_or_unknown Effects.effects_of Effects.line_amount
    Effects.assert_balanced read_money parse_money format_money print_digits trim digits_value
    print_unsigned steps ◌+ℤ◌ text_eq
movement_nets_to_zero_example =
    movement_nets_to_zero (λ t. bill_doc) posted (text "b1") ((λ row e. (_, refl)), tt)

abbrev run : ExtractionRun
run = record {
  id = text "r1";
  branch_code = text "BR";
  from_date = text "2024-04-01";
  to_date = text "2024-04-30";
  status = RunState.source_reconciled;
  updated_at = text "2024-05-01";
}

-- A stock adjustment that is still pending.
abbrev reconciled : Store
reconciled = record empty_store {
  extraction_runs = run ∷ [];
  vouchers =
      record voucher {
        disposition = Disposition.pending;
        source_transaction_type = text "STOCK_ADJ";
      }
      ∷ [];
}

abbrev after_classify : Store
after_classify =
    (classify_run (λ r. null) (ctx_of operator (text "op")) (text "r1") (text "k1") [] reconciled).1

classify_run_settles_example :
    All (λ x. is_pending_in (text "r1") x ≡ false) after_classify.vouchers
unfolding classify_run Run.carry_out Run.stamp Run.end_classification Classification.judge emit
    run_transitions calls text_eq print_digits
classify_run_settles_example =
    classify_run_settles (λ r. null) (ctx_of operator (text "op")) (text "r1") (text "k1") []
      reconciled after_classify tt refl
