-- ===== src/AcquisitionGate/Tests.antt =====
-- A receipt and records on concrete inputs, and the theorems at them.
use discord_context_bridge.AcquisitionGate.Identity.{capture_id_from_attempt_identity}
use discord_context_bridge.AcquisitionGate.Ready.{IsReady, gate-IsReady}
use discord_context_bridge.AcquisitionGate.Strict.{IsStrict, validate-IsStrict}
use discord_context_bridge.AcquisitionGate.Coverage.{
  Request, build_acquisition_completion_gate, rows_of, receipt_id, period_start, period_end,
  row_ids, rows_with, receipt_rows, rows_start, rows_end, stated, receipt_blockers, unique_hashes,
  source_routes, acquisition_checks, refresh_of, acquired_range, requested_range, findings,
  all_blockers,
}
use discord_context_bridge.AcquisitionGate.Receipts.{
  validate_full_capture_receipt, positive_int, fields_or_empty, identity_valid, receipt_capture_id,
  receipt_messages, receipt_checks,
}
use discord_context_bridge.Shared.{
  true, false, some, [], ◌∷◌, ℕ, Fields, Runtime, is_nil, Value, obj, length, field, ◌≡◌, ◌↔◌, int,
  str, bool, end, pos, arr, nil, strip, sorted_set, refl, Clock, replace_z, parse_time,
}

program : Unit {0}
unfolding replace_z parse_time positive_int fields_or_empty identity_valid receipt_capture_id
    receipt_messages receipt_checks validate_full_capture_receipt rows_of receipt_id period_start
    period_end row_ids rows_with receipt_rows rows_start rows_end stated receipt_blockers
    unique_hashes source_routes acquisition_checks refresh_of acquired_range requested_range
    findings all_blockers build_acquisition_completion_gate strip sorted_set
    capture_id_from_attempt_identity
program = tt

abbrev rt : Runtime
rt = record { sha256 = λ text. "5e1f"; repr = λ value. "[]" }

-- The instant of a text is its length.
abbrev clock : Clock
clock = record { from_iso = λ text. some (some (length text)); iso_text = λ t. "t" }

abbrev counts : Value
counts = obj (
    field "messages" (int (pos 2)) (
      field "raw_records" (int (pos 2)) (
        field "markdown_messages" (int (pos 2)) (
          field "ledger_messages" (int (pos 2)) (
            field "attachments_discovered" (int (pos 1)) (
              field "attachments_saved" (int (pos 1))
                (field "attachments_manifested" (int (pos 1)) end)))))))

abbrev boundaries : Value
boundaries = obj (
    field "oldest_reached" (bool true)
      (field "latest_reached" (bool true) (field "capture_stable_after_rescan" (bool true) end)))

abbrev receipt : Fields
receipt = field "schema" (str "discord_full_capture_completion_gate.v1") (
    field "status" (str "full") (
      field "full_capture_confirmed" (bool true) (
        field "capture_id" (str "5e1f") (
          field "boundaries" boundaries (
            field "counts" counts (
              field "counts_consistent" (bool true) (
                field "attachments_consistent" (bool true) (
                  field "unresolved_gap_count" (int (pos 0)) (
                    field "blockers" (arr nil) (
                      field "raw_text_returned" (bool false) (
                        field "participant_names_returned" (bool false) (
                          field "url_output" (str "omitted") (
                            field "path_output" (str "omitted")
                              (field "outbound_actions" (str "disabled") end))))))))))))))

receipt_accepted : is_nil (validate_full_capture_receipt rt clock (some receipt)).blockers ≡ true
unfolding program
receipt_accepted = refl

abbrev row : Value
row = obj (
    field "capture_id" (str "5e1f")
      (field "oldest_message_at" (str "1") (field "latest_message_at" (str "12345") end)))

abbrev request : Request
request = record {
  requested_start = "12";
  requested_end = "1234";
  freshness_status = "recent";
  source_kind = "saved_log";
  user_confirmed = true;
  receipt_load_error = "";
}

context_ready :
    (build_acquisition_completion_gate rt clock (row ∷ []) request (some receipt)).summary_ready
    ≡ true
unfolding program
context_ready = refl

validate-IsStrict_example :
    (is_nil (validate_full_capture_receipt rt clock (some receipt)).blockers ≡ true)
    ↔ ((messages : ℕ) × (files : ℕ) × IsStrict rt clock receipt messages files)
validate-IsStrict_example = validate-IsStrict rt clock receipt

gate-IsReady_example :
    (first : ℕ) × (last : ℕ) × (acquired_first : ℕ) × (acquired_last : ℕ) × IsReady rt clock
      (row ∷ [])
      request
      receipt
      first
      last
      acquired_first
      acquired_last
gate-IsReady_example = gate-IsReady rt clock (row ∷ []) request receipt context_ready
