-- ===== src/FullCapture/Tests.antt =====
-- The gate on concrete evidence, and the theorems at it.
use discord_context_bridge.Capture.Orchestrator.{
  Run, fresh_run, is_full_gate, gate_evaluating, Event,
}
use discord_context_bridge.Capture.Orchestrator.Completion.{full_event}
use discord_context_bridge.Capture.Reconcile.{
  build_reconciliation_evidence, duplicates, one_set, one_digest,
}
use discord_context_bridge.FullCapture.{
  full, evaluate_full_capture, evaluate_merged, recompute_from_bound_evidence, recomputed_evidence,
  mismatched, as_id_sequence, count, gate_status, gate_payload,
}
use discord_context_bridge.FullCapture.Route.{build_capture_route_policy}
use discord_context_bridge.FullCapture.Conditions.{IsComplete, merged, evaluate-IsComplete}
use discord_context_bridge.FullCapture.Bound.{ListsAgree, full-ListsAgree}
use discord_context_bridge.FullCapture.Closing.{evaluated_gate-Closes, Closes}
use discord_context_bridge.Shared.{
  ◌≡◌, ◌↔◌, refl, String, Runtime, Fields, Value, str, bool, int, arr, nil, cons, field, end, some,
  none, true, pos, List, [], ◌∷◌, digest,
}

program : Unit {0}
unfolding build_reconciliation_evidence duplicates one_set one_digest digest evaluate_full_capture
    evaluate_merged recompute_from_bound_evidence recomputed_evidence mismatched as_id_sequence
    count gate_status gate_payload build_capture_route_policy is_full_gate
program = tt

abbrev rt : Runtime
rt = record { sha256 = λ text. "5e1f"; repr = λ value. "[]" }

abbrev flags : List String → Fields → Fields
flags [] rest = rest
flags (k ∷ ks) rest = field k (bool true) (flags ks rest)

abbrev ids : Value
ids = arr (cons (str "m1") (cons (str "m2") nil))

abbrev files : Value
files = arr (cons (str "a1") nil)

-- Evidence without its ledger list.
abbrev two_lists : Fields
two_lists =
    flags
      ("target_bound" ∷ "capture_id_present" ∷ "evidence_schema_valid" ∷ "evidence_fresh"
        ∷ "oldest_reached" ∷ "latest_reached" ∷ "upper_watermark_reached"
        ∷ "capture_stable_after_rescan" ∷ "artifact_hashes_verified"
        ∷ "attachment_inventory_complete" ∷ "manifest_schema_valid" ∷ [])
      (field "route" (str "iab") (
        field "capture_id" (str "5e1f") (
          field "stable_scan_count" (int (pos 2)) (
            field "external_actions" (str "disabled") (
              field "discovered_attachment_ids" files (
                field "saved_attachment_ids" files (
                  field "manifest_attachment_ids" files
                    (field "raw_message_ids" ids (field "markdown_message_ids" ids end)))))))))

abbrev evidence : Fields
evidence = field "ledger_message_ids" ids two_lists

evidence_full : (evaluate_full_capture rt evidence).status ≡ full
unfolding program
evidence_full = refl

-- A list with another message, and a count that the lists do not have.
abbrev contradicted : Fields
contradicted =
    field "message_count" (int (pos 3))
      (field "ledger_message_ids" (arr (cons (str "m1") nil)) two_lists)

contradicted_blockers :
    (evaluate_full_capture rt contradicted).blockers
    ≡ "message_artifact_count_mismatch" ∷ "message_id_set_mismatch"
      ∷ "evidence_recomputation_mismatch" ∷ []
unfolding program
contradicted_blockers = refl

abbrev run : Run
run = fresh_run rt "target" "in_app_browser" "m2" 1 ("5e1f", none)

evaluate-IsComplete_example :
    (((evaluate_full_capture rt evidence).status ≡ full)
      ↔ IsComplete rt
          (merged rt evidence)
          (recompute_from_bound_evidence rt evidence).mismatched_keys)
    × (((evaluate_full_capture rt evidence).full_capture_confirmed ≡ true)
        ↔ ((evaluate_full_capture rt evidence).status ≡ full))
evaluate-IsComplete_example = evaluate-IsComplete rt evidence

full-ListsAgree_example : ListsAgree rt evidence
unfolding program
full-ListsAgree_example = full-ListsAgree rt evidence refl evidence_full

abbrev gate : Fields
gate = gate_payload (evaluate_full_capture rt evidence)

abbrev at_gate : Run
at_gate = record run { state = gate_evaluating }

abbrev event : Event
event = record (full_event "5e1f") { gate = some gate }

evaluated_gate-Closes_example : Closes rt at_gate event gate ↔ (
    (at_gate.state ≡ gate_evaluating)
    × ((evaluate_full_capture rt evidence).status ≡ full)
    × (event.capture_id ≡ some at_gate.capture_id)
    × ((evaluate_full_capture rt evidence).capture_id ≡ at_gate.capture_id))
evaluated_gate-Closes_example = evaluated_gate-Closes rt at_gate event evidence refl refl
