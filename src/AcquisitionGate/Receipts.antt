-- ===== src/AcquisitionGate/Receipts.antt =====
-- `_validate_full_capture_receipt` of acquisition_gate.py: the strict validator of full capture
-- receipts.
use discord_context_bridge.Shared.{
  Fields, Option, Runtime, String, Value, strip, ℕ, get, Bool, Checks, if◌then◌else◌, obj, ◌∷◌,
  Result, [], List, false, some, is_true, not, end, true, is_text, int, ◌&&◌, str_or_empty, pos,
  failed, is_some, is_empty, ◌==◌, ok, ltb, find, str_eq, none, truthy, err, is_false, Clock,
  parse_time,
}
use discord_context_bridge.AcquisitionGate.Identity.{
  capture_id_from_attempt_identity, IdentityError,
}

unfoldable pub positive_int : Value → Option ℕ
positive_int (int (pos n)) = some n
positive_int _ = none

-- `receipt.get(key) if isinstance(receipt.get(key), dict) else {}`
unfoldable pub fields_or_empty : Value → Fields
fields_or_empty (obj fs) = fs
fields_or_empty _ = end

-- `value == n`, of two counts that may be missing
abbrev pub same_count : Option ℕ → Option ℕ → Bool
same_count none none = true
same_count (some m) (some n) = m == n
same_count _ _ = false

-- `all(value is not None for value in values) and len(set(values)) == 1`
abbrev pub aligned : Option ℕ → Option ℕ → Option ℕ → Bool
aligned (some a) (some b) (some c) = a == b && a == c
aligned _ _ _ = false

abbrev pub is_positive : Option ℕ → Bool
is_positive none = false
is_positive (some n) = ltb 0 n

abbrev names_run : String → Result IdentityError String → Bool
names_run capture_id (ok id) = str_eq id capture_id
names_run capture_id (err e) = false

-- `not attempt_identity_invalid`: the receipt has no identity, or one with its capture id.
unfoldable pub identity_valid : Runtime → String → Option Value → Bool
identity_valid rt capture_id none = true
identity_valid rt capture_id (some identity) =
    names_run capture_id (capture_id_from_attempt_identity rt identity)

unfoldable pub receipt_capture_id : Runtime → Fields → String
receipt_capture_id rt r = strip (str_or_empty rt (get "capture_id" r))

abbrev pub receipt_counts : Fields → Fields
receipt_counts r = fields_or_empty (get "counts" r)

abbrev pub count_of : String → Fields → Option ℕ
count_of k r = positive_int (get k (receipt_counts r))

abbrev pub receipt_boundaries : Fields → Fields
receipt_boundaries r = fields_or_empty (get "boundaries" r)

unfoldable pub receipt_messages : Fields → Option ℕ
receipt_messages r = count_of "messages" r

abbrev pub is_canonical : Fields → Bool
is_canonical r = is_text "dcb-strict-full-capture-receipt.v1" (get "schema" r)

-- The schema of the gate that the receipt comes from.
abbrev pub source_gate_schema : Fields → Value
source_gate_schema r = if is_canonical r then get "source_gate_schema" r else get "schema" r

abbrev pub has_provenance : Clock → Fields → Bool
has_provenance clock r =
    is_text "1.0" (get "schema_version" r)
    && is_text "discord-context-bridge" (get "recorded_by" r)
    && is_some (parse_time clock (get "recorded_at" r))

abbrev pub boundaries_complete : Fields → Bool
boundaries_complete b =
    is_true (get "oldest_reached" b)
    && is_true (get "latest_reached" b)
    && is_true (get "capture_stable_after_rescan" b)

abbrev pub counts_valid : Fields → Bool
counts_valid r =
    is_positive (receipt_messages r)
    && same_count (count_of "raw_records" r) (receipt_messages r)
    && same_count (count_of "markdown_messages" r) (receipt_messages r)
    && same_count (count_of "ledger_messages" r) (receipt_messages r)

abbrev pub attachments_aligned : Fields → Bool
attachments_aligned r =
    aligned (count_of "attachments_discovered" r) (count_of "attachments_saved" r)
      (count_of "attachments_manifested" r)

unfoldable pub receipt_checks : Runtime → Clock → Fields → Checks
receipt_checks rt clock r =
    (
      not (is_text "discord_full_capture_completion_gate.v1" (source_gate_schema r)),
      "full_capture_receipt_schema_invalid",
    )
    ∷ (
      is_canonical r && not (is_text "context_acquisition" (get "consumer_binding" r)),
      "full_capture_receipt_consumer_binding_invalid",
    )
    ∷ (is_canonical r && not (has_provenance clock r), "full_capture_receipt_provenance_invalid")
    ∷ (not (is_text "full" (get "status" r)), "full_capture_receipt_not_full")
    ∷ (not (is_true (get "full_capture_confirmed" r)), "full_capture_receipt_not_confirmed")
    ∷ (is_empty (receipt_capture_id rt r), "full_capture_receipt_capture_id_missing")
    ∷ (
      not (identity_valid rt (receipt_capture_id rt r) (find "capture_identity" r)),
      "full_capture_receipt_attempt_identity_invalid",
    )
    ∷ (
      not (boundaries_complete (receipt_boundaries r)),
      "full_capture_receipt_boundaries_incomplete",
    )
    ∷ (not (is_true (get "counts_consistent" r)), "full_capture_receipt_counts_inconsistent")
    ∷ (not (counts_valid r), "full_capture_receipt_counts_invalid")
    ∷ (
      not (is_true (get "attachments_consistent" r)),
      "full_capture_receipt_attachments_inconsistent",
    )
    ∷ (not (attachments_aligned r), "full_capture_receipt_attachment_counts_invalid")
    ∷ (
      not (same_count (positive_int (get "unresolved_gap_count" r)) (some 0)),
      "full_capture_receipt_has_gaps",
    )
    ∷ (truthy (get "blockers" r), "full_capture_receipt_has_blockers")
    ∷ (not (is_false (get "raw_text_returned" r)), "full_capture_receipt_raw_output_invalid")
    ∷ (
      not (is_false (get "participant_names_returned" r)),
      "full_capture_receipt_participant_output_invalid",
    )
    ∷ (not (is_text "omitted" (get "url_output" r)), "full_capture_receipt_url_output_invalid")
    ∷ (not (is_text "omitted" (get "path_output" r)), "full_capture_receipt_path_output_invalid")
    ∷ (not (is_text "disabled" (get "outbound_actions" r)), "full_capture_receipt_outbound_invalid")
    ∷ []

pub record Validation : Type 0 where
  pub capture_id : String
  pub message_count : Option ℕ
  pub blockers : List String

unfoldable pub validate_full_capture_receipt : Runtime → Clock → Option Fields → Validation
validate_full_capture_receipt rt clock none = record {
  capture_id = "";
  message_count = none;
  blockers = "full_capture_receipt_missing" ∷ [];
}
validate_full_capture_receipt rt clock (some r) = record {
  capture_id = receipt_capture_id rt r;
  message_count = receipt_messages r;
  blockers = failed (receipt_checks rt clock r);
}
