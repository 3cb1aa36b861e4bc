-- ===== src/FullCapture.antt =====
-- full_capture.py: the completion gate. Evidence is a payload mapping; when it carries the three
-- message id lists, the counts and comparisons are computed from them and replace what it says.
pub mod Route
pub mod Conditions
pub mod Bound
pub mod Closing
mod Tests
use mathlib.Core.Option
use discord_context_bridge.FullCapture.Route.{RoutePolicy, build_capture_route_policy}
use discord_context_bridge.Capture.Reconcile.{
  Identifiers, message_evidence, attachment_evidence, producer_evidence, trusted_producer,
  build_reconciliation_evidence,
}
use discord_context_bridge.Shared.{
  ℕ, Bool, true, false, not, ◌&&◌, ◌||◌, List, [], ◌∷◌, String, Runtime, Fields, Value, Option,
  none, some, ℤ, is_some, int, Checks, str_eq, failed, if◌then◌else◌, field, truthy, ltb, update,
  ◌==◌, get, is_text, str_or_empty, end, float, is_nil, to_str, pos, find, any, ◌++◌, eq_nat, obj,
  negsuc, bool, contains, eq_bool, str, map, as_sequence,
}

abbrev natural : ℤ → ℕ
natural (pos n) = n
natural (negsuc n) = 0

-- `int(value)`, or 0 where it raises or is negative
abbrev natural_or_zero : Option ℤ → ℕ
natural_or_zero none = 0
natural_or_zero (some n) = natural n

abbrev as_count : Value → ℕ
as_count (int n) = natural n
as_count (float x) = natural_or_zero x.truncated
as_count _ = 0

-- `_count`
unfoldable pub count : String → Fields → ℕ
count key evidence = as_count (get key evidence)

-- `_as_id_sequence`
unfoldable pub as_id_sequence : Runtime → String → Fields → Option (List String)
as_id_sequence rt key evidence = Option.map (map (to_str rt)) (as_sequence (get key evidence))

abbrev pub ids_or_empty : Option (List String) → List String
ids_or_empty none = []
ids_or_empty (some ids) = ids

-- `recomputed[key] != evidence[key]`, for what a reconciliation holds
abbrev agrees : Value → Value → Bool
agrees v (int (pos n)) = eq_nat v n
agrees v (bool b) = eq_bool v b
agrees v (str s) = is_text s v
agrees v _ = false

mismatch_of : Option Value → String → Value → List String
mismatch_of none key expected = []
mismatch_of (some v) key expected = if agrees v expected then [] else key ∷ []

-- The keys that the evidence has with another value.
unfoldable pub mismatched : Fields → Fields → List String
unfolding mismatch_of
mismatched end evidence = []
mismatched (field k v rest) evidence = mismatch_of (find k evidence) k v ++ mismatched rest evidence

-- What `_recompute_from_bound_evidence` returns: the recomputed mapping and the blockers or
-- keys that disagree.
pub record Recomputation : Type 0 where
  pub recomputed : Fields
  pub mismatched_keys : List String

abbrev pub partial_bound : String
partial_bound = "partial_bound_message_id_evidence"

abbrev pub given : Runtime → String → Fields → Bool
given rt key evidence = is_some (as_id_sequence rt key evidence)

abbrev pub attachments_bound : Runtime → Fields → Bool
attachments_bound rt evidence =
    given rt "discovered_attachment_ids" evidence
    && given rt "saved_attachment_ids" evidence
    && given rt "manifest_attachment_ids" evidence

abbrev pub ids_of : Runtime → String → Fields → List String
ids_of rt key evidence = ids_or_empty (as_id_sequence rt key evidence)

abbrev pub bound_ids : Runtime → Fields → Identifiers
bound_ids rt evidence = record {
  raw = ids_of rt "raw_message_ids" evidence;
  markdown = ids_of rt "markdown_message_ids" evidence;
  ledger = ids_of rt "ledger_message_ids" evidence;
  discovered = ids_of rt "discovered_attachment_ids" evidence;
  saved = ids_of rt "saved_attachment_ids" evidence;
  manifest = ids_of rt "manifest_attachment_ids" evidence;
}

-- The reconciliation, without its attachment keys unless all three attachment lists are bound.
unfoldable pub recomputed_evidence : Runtime → Fields → Fields
unfolding build_reconciliation_evidence
recomputed_evidence rt evidence =
    if attachments_bound rt evidence
    then build_reconciliation_evidence rt (bound_ids rt evidence)
        (truthy (get "attachment_inventory_complete" evidence))
    else message_evidence rt (bound_ids rt evidence) producer_evidence

abbrev pub all_bound : Runtime → Fields → Bool
all_bound rt evidence =
    given rt "raw_message_ids" evidence
    && given rt "markdown_message_ids" evidence
    && given rt "ledger_message_ids" evidence

abbrev pub any_bound : Runtime → Fields → Bool
any_bound rt evidence =
    given rt "raw_message_ids" evidence
    || given rt "markdown_message_ids" evidence
    || given rt "ledger_message_ids" evidence

unfoldable pub recompute_from_bound_evidence : Runtime → Fields → Recomputation
recompute_from_bound_evidence rt evidence =
    if all_bound rt evidence
    then record {
      recomputed = recomputed_evidence rt evidence;
      mismatched_keys = mismatched (recomputed_evidence rt evidence) evidence;
    }
    else record {
      recomputed = end;
      mismatched_keys = if any_bound rt evidence then partial_bound ∷ [] else [];
    }

pub data GateStatus : Type 0 where
  full partial blocked : GateStatus

pub record GateResult : Type 0 where
  pub status : GateStatus
  pub full_capture_confirmed : Bool
  pub capture_id : String
  pub route : String
  pub messages : ℕ
  pub blockers : List String
  pub mismatched_keys : List String
  pub bound_evidence_recomputed : Bool

abbrev pub is_partial_bound : List String → Bool
is_partial_bound (key ∷ []) = str_eq key partial_bound
is_partial_bound _ = false

abbrev pub flag : String → Fields → Bool
flag key evidence = truthy (get key evidence)

abbrev pub three_equal : ℕ → ℕ → ℕ → Bool
three_equal a b c = a == b && b == c

-- `counts_consistent`
abbrev pub counts_consistent : Fields → Bool
counts_consistent ev =
    ltb 0 (count "message_count" ev)
    && count "message_count" ev == count "raw_record_count" ev
    && count "message_count" ev == count "markdown_message_count" ev
    && count "message_count" ev == count "ledger_message_count" ev

abbrev pub attachments_consistent : Fields → Bool
attachments_consistent ev =
    three_equal (count "attachment_discovered_count" ev) (count "attachment_saved_count" ev)
      (count "attachment_manifest_count" ev)

-- `str(evidence.get("route") or "unknown")`
abbrev pub route_of : Runtime → Fields → String
route_of rt ev = if flag "route" ev then to_str rt (get "route" ev) else "unknown"

-- The tests of `evaluate_full_capture` on the merged evidence, in order.
abbrev pub gate_checks : Runtime → Fields → List String → Checks
gate_checks rt ev mismatches =
    (
      str_eq (build_capture_route_policy (route_of rt ev)).primary_read "unsupported",
      "unsupported_capture_route",
    )
    ∷ (not (is_text trusted_producer (get "evidence_producer" ev)), "untrusted_evidence_producer")
    ∷ (not (flag "target_bound" ev), "target_not_bound")
    ∷ (not (flag "capture_id_present" ev), "capture_id_missing")
    ∷ (not (flag "evidence_schema_valid" ev), "evidence_schema_invalid")
    ∷ (not (flag "evidence_fresh" ev), "evidence_stale")
    ∷ (count "message_count" ev == 0, "no_messages_captured")
    ∷ (not (flag "oldest_reached" ev), "oldest_not_reached")
    ∷ (not (flag "latest_reached" ev), "latest_not_reached")
    ∷ (not (flag "upper_watermark_reached" ev), "upper_watermark_not_reached")
    ∷ (not (flag "capture_stable_after_rescan" ev), "rescan_not_stable")
    ∷ (ltb (count "stable_scan_count" ev) 2, "stable_scan_count_insufficient")
    ∷ (not (count "unresolved_gap_count" ev == 0), "unresolved_message_gaps")
    ∷ (not (count "duplicate_message_count" ev == 0), "duplicate_messages_present")
    ∷ (not (counts_consistent ev), "message_artifact_count_mismatch")
    ∷ (not (flag "message_id_sets_equal" ev), "message_id_set_mismatch")
    ∷ (not (flag "ordered_message_digest_equal" ev), "message_order_mismatch")
    ∷ (not (flag "artifact_hashes_verified" ev), "artifact_hash_verification_failed")
    ∷ (not (flag "attachment_inventory_complete" ev), "attachment_inventory_incomplete")
    ∷ (not (attachments_consistent ev), "attachment_count_mismatch")
    ∷ (not (flag "attachment_id_sets_equal" ev), "attachment_id_set_mismatch")
    ∷ (not (flag "manifest_schema_valid" ev), "attachment_manifest_schema_invalid")
    ∷ (not (count "pending_retry_count" ev == 0), "pending_retry")
    ∷ (not (is_text "disabled" (get "external_actions" ev)), "external_actions_not_disabled")
    ∷ (is_partial_bound mismatches, partial_bound)
    ∷ (
      not (is_partial_bound mismatches) && not (is_nil mismatches),
      "evidence_recomputation_mismatch",
    )
    ∷ []

abbrev pub hard_blockers : List String
hard_blockers =
    "unsupported_capture_route" ∷ "evidence_schema_invalid" ∷ "untrusted_evidence_producer"
    ∷ "evidence_recomputation_mismatch" ∷ partial_bound ∷ []

unfoldable pub gate_status : ℕ → List String → GateStatus
gate_status messages blockers =
    if is_nil blockers
    then full
    else if messages == 0 || any (λ b. contains b hard_blockers) blockers
    then blocked
    else partial

abbrev pub is_full : GateStatus → Bool
is_full full = true
is_full _ = false

-- The gate on evidence that has been merged with what was recomputed.
unfoldable pub evaluate_merged : Runtime → Fields → Recomputation → GateResult
evaluate_merged rt ev r =
    let blockers = failed (gate_checks rt ev r.mismatched_keys) in
    let status = gate_status (count "message_count" ev) blockers in
    record {
      status = status;
      full_capture_confirmed = is_full status;
      capture_id = str_or_empty rt (get "capture_id" ev);
      route = route_of rt ev;
      messages = count "message_count" ev;
      blockers = blockers;
      mismatched_keys = r.mismatched_keys;
      bound_evidence_recomputed = truthy (obj r.recomputed);
    }

unfoldable pub evaluate_full_capture : Runtime → Fields → GateResult
evaluate_full_capture rt evidence =
    let r = recompute_from_bound_evidence rt evidence in
    evaluate_merged rt (update evidence r.recomputed) r

unfoldable pub status_text : GateStatus → String
status_text full = "full"
status_text partial = "partial"
status_text blocked = "blocked"

-- The keys of the gate's result that a run reads.
unfoldable pub gate_payload : GateResult → Fields
unfolding status_text
gate_payload g = field "status" (str (status_text g.status)) (
    field "full_capture_confirmed" (bool g.full_capture_confirmed) (
      field "capture_id" (str g.capture_id)
        (field "route" (str g.route) (field "outbound_actions" (str "disabled") end))))
