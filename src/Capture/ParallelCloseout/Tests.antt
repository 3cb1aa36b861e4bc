-- ===== src/Capture/ParallelCloseout/Tests.antt =====
-- A run of one item, and the theorems at it.
use discord_context_bridge.Capture.ParallelCloseout.Example.{
  sha, hashed, run_fields, run_dir, stop_fields,
}
use discord_context_bridge.Capture.ParallelCloseout.Receipts.{
  build_drain_receipt, build_stop_receipt, drain_receipt, stop_receipt_of, with_stop,
  build_stop-quiescent,
}
use discord_context_bridge.Shared.{
  true, false, none, some, ok, str, bool, obj, end, field, sorted_set, insert_text, Fields, ◌≢◌,
  ◌≡◌, ◌↔◌, refl, is_sha256,
}
use discord_context_bridge.Capture.Reconcile.{same_set, is_subset}
use discord_context_bridge.Capture.ParallelCloseout.{
  RunDir, is_sha256, shard_counts, expected_worker_names, definition_fields, run_definition_sha256,
  legacy_index, valid_ready, valid_receipt, ledger_matches_receipt, Fields,
}
use discord_context_bridge.Capture.ParallelCloseout.Evidence.{
  add_items, add_shard, add_shards, canonical_bindings, has_ready, valid_receipt_of,
  load_commit_ledger, has_ledger, has_hashes, is_without_text, valid_drain, drain_receipts,
  producer_drains_sha256, valid_stop, run_quiescence_blocker,
}
use discord_context_bridge.Capture.ParallelCloseout.Evaluation.{
  Parent, full_closed, evaluate_run, evaluate_legacy_parallel_run, run_metadata,
  parent_target_key_digest, parent_blocker, parent_blockers, counts_of_items, item_checks, close,
  evaluate_items, evaluate_with,
}
use discord_context_bridge.Capture.ParallelCloseout.Authority.{caller-not_full}
use discord_context_bridge.Capture.ParallelCloseout.Proven.{IsProven, evaluate-IsProven}

closeout : Unit {0}
unfolding same_set is_subset is_sha256 shard_counts expected_worker_names definition_fields
    run_definition_sha256 legacy_index valid_ready valid_receipt ledger_matches_receipt add_items
    add_shard add_shards canonical_bindings has_ready valid_receipt_of load_commit_ledger has_ledger
    has_hashes is_without_text valid_drain drain_receipts producer_drains_sha256 valid_stop
    run_quiescence_blocker evaluate_run evaluate_legacy_parallel_run run_metadata
    parent_target_key_digest parent_blocker parent_blockers counts_of_items item_checks close
    evaluate_items evaluate_with sorted_set insert_text
closeout = tt

abbrev certificate : Fields
certificate = field "schema" (str "discord_parent_completeness_certificate.v1") (
    field "raw_text_returned" (bool false) (
      field "identifiers_returned" (bool false) (
        field "status" (str "full") (
          field "parent_full_capture_confirmed" (bool true)
            (field "outbound_actions" (str "disabled") end)))))

abbrev store_parent : Parent
store_parent = record { audit = some certificate; target_key = "target"; canonical = true }

evaluate-IsProven_example :
    ((evaluate_run hashed run_dir store_parent true).terminal_state ≡ full_closed)
    ↔ IsProven hashed run_dir store_parent run_fields 1
unfolding run_metadata
evaluate-IsProven_example = evaluate-IsProven hashed run_dir store_parent true run_fields 1 refl

run_closed : (evaluate_run hashed run_dir store_parent false).terminal_state ≡ full_closed
unfolding closeout
run_closed = refl

caller-not_full_example :
    (evaluate_legacy_parallel_run hashed run_dir (some certificate) "target" true).terminal_state
    ≢ full_closed
caller-not_full_example = caller-not_full hashed run_dir (some certificate) "target" true

-- No producer left a receipt, and the stop receipt has no digest of them.
abbrev undrained : RunDir
undrained = record run_dir {
  terminal = λ producer. none;
  stop_receipt = some (obj (stop_fields end));
}

undrained_closed : (evaluate_run hashed undrained store_parent false).terminal_state ≡ full_closed
unfolding closeout
undrained_closed = refl

abbrev drain : Fields
drain = drain_receipt hashed run_fields "importer" "e1"

drain_built : build_drain_receipt hashed run_dir "importer" "e1" ≡ ok drain
unfolding closeout build_drain_receipt
drain_built = refl

abbrev stop : Fields
stop = stop_receipt_of hashed run_fields "e2" "completed" sha sha

stop_built : build_stop_receipt hashed run_dir "e2" "completed" ≡ ok stop
unfolding closeout build_stop_receipt
stop_built = refl

build_stop-quiescent_example :
    run_quiescence_blocker hashed (with_stop stop run_dir) run_fields ≡ none
build_stop-quiescent_example =
    build_stop-quiescent hashed run_dir "e2" "completed" run_fields refl stop_built
