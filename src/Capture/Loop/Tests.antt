-- ===== src/Capture/Loop/Tests.antt =====
-- Loop runs and receipts on concrete inputs, and the theorems at them.
use discord_context_bridge.Capture.Loop.Observed.{IsObservedFull, validate-IsObservedFull}
use discord_context_bridge.Capture.Orchestrator.{
  EventName, Event, State, new_capture_run, fresh_run, advance_capture_run, record_event,
  apply_event, progress, transition, is_terminal, blocked_closed, Checkpoint, route_ready,
  oldest_reached, traversing_to_oldest, gate_digest, latest_reached, traversing_to_latest,
  attachment_inventory, attachment_inventory_complete, attachments_saved, downloading_attachments,
  reconciled, reconciling, stable_rescan_complete, stable_rescan,
}
use discord_context_bridge.Capture.Orchestrator.Checkpoints.{IsConsistent, logged_events}
use discord_context_bridge.Capture.Orchestrator.Completion.{plain}
use discord_context_bridge.Capture.Orchestrator.Recovery.{is_pause}
use discord_context_bridge.Capture.Loop.{
  LoopRun, new_capture_loop, start_loop, advance_capture_loop, advance_loop_all, partial_gate,
  close_scan, derive_operational_tags, true, scan_pass_budget_exhausted, false, blocked,
  full_closed, lookup, sorted_set, gate_evaluating, gate_partial,
}
use discord_context_bridge.Capture.Loop.Budget.{count_partial, loop-InScanBudget}
use discord_context_bridge.Capture.Loop.Status.{
  build_capture_status_projection, projection-state, FdeStatus,
}
use discord_context_bridge.Capture.Loop.Receipts.{
  validate_observed_full_receipt, Reconciliation, CloseoutRequest, build_observed_full_closeout,
  ObservedInFull, closeout-ObservedInFull, claims_api_full,
}
use discord_context_bridge.Shared.{
  ℕ, ◌≡◌, refl, List, [], ◌∷◌, Runtime, some, none, ok, pos, end, field, str, bool, obj, map,
  Fields, ◌≤◌, ◌↔◌, digest, true, false, ◌+◌, lower, lookup, insert, sorted_set, strip,
}

program : Unit {0}
unfolding new_capture_run fresh_run advance_capture_run record_event apply_event progress transition
    is_terminal new_capture_loop advance_capture_loop advance_loop_all partial_gate close_scan
    derive_operational_tags digest gate_digest lookup insert sorted_set strip lower
program = tt

abbrev rt : Runtime
rt = record { sha256 = λ text. "5e1f"; repr = λ value. "[]" }

abbrev context : Fields
context = field "scope" (str "dm") (field "refresh_check" (bool true) end)

tags : derive_operational_tags rt context ≡ "direct-message" ∷ "refresh-check" ∷ []
unfolding program
tags = refl

abbrev start : LoopRun
start =
    start_loop rt "rest_backfill" context 2
      (fresh_run rt "target" "rest_backfill" "m9" 1 ("5e1f", none))

start_lem :
    new_capture_loop rt "target" "rest_backfill" "m9" (pos 2) (pos 1) context none ≡ ok start
unfolding program
start_lem = refl

abbrev two_partials : List Event
two_partials = map plain (
    route_ready ∷ oldest_reached ∷ latest_reached ∷ attachment_inventory_complete
    ∷ attachments_saved ∷ reconciled ∷ stable_rescan_complete ∷ gate_partial
    ∷ stable_rescan_complete ∷ gate_partial ∷ [])

abbrev log_from : ℕ → List (EventName × State) → List Checkpoint
log_from n [] = []
log_from n ((e, s) ∷ rest) = record { sequence = n; event = e; state = s } ∷ log_from (n + 1) rest

abbrev steps : List (EventName × State)
steps =
    (route_ready, traversing_to_oldest)
    ∷ (oldest_reached, traversing_to_latest)
    ∷ (latest_reached, attachment_inventory)
    ∷ (attachment_inventory_complete, downloading_attachments)
    ∷ (attachments_saved, reconciling)
    ∷ (reconciled, stable_rescan)
    ∷ (stable_rescan_complete, gate_evaluating)
    ∷ (gate_partial, stable_rescan)
    ∷ (stable_rescan_complete, gate_evaluating)
    ∷ (gate_partial, blocked_closed)
    ∷ []

abbrev exhausted : LoopRun
exhausted = record start {
  run = record start.run {
    state = blocked_closed;
    blocker = some scan_pass_budget_exhausted;
    background_full = blocked;
    checkpoints = log_from 1 steps;
  };
  scan_pass = some (record { budget = 2; used = 2 });
}

two_partials_lem : advance_loop_all rt start two_partials ≡ ok exhausted
unfolding program
two_partials_lem = refl

loop-InScanBudget_example :
    (used : ℕ) × (exhausted.scan_pass ≡ some (record { budget = 2; used = used }))
    × (used ≡ count_partial (logged_events exhausted.run))
    × (used ≤ 2)
    × (used ≡ 2 → exhausted.run.state ≡ blocked_closed)
    × IsConsistent exhausted.run
loop-InScanBudget_example =
    loop-InScanBudget rt "target" "rest_backfill" "m9" 2 (pos 1) context none two_partials start_lem
      two_partials_lem

projection-state_example :
    let p = build_capture_status_projection exhausted in
    ((p.fde_status ≡ FdeStatus.full) ↔ (exhausted.run.state ≡ full_closed))
    × ((p.passport_ready_next ≡ true) ↔ (exhausted.run.state ≡ full_closed))
    × ((p.fde_status ≡ FdeStatus.blocked) ↔ (exhausted.run.state ≡ blocked_closed))
    × ((p.fde_status ≡ FdeStatus.paused) ↔ (is_pause exhausted.run.state ≡ true))
    × (p.event_emitted ≡ false)
projection-state_example = projection-state exhausted

abbrev receipt : Fields
receipt = field "schema" (str "discord_observed_full_closeout.v1") (
    field "state" (str "API_FULL_verified") (
      field "observed_full" (obj (field "verified" (bool true) end)) (
        field "api_full" (obj (field "verified" (bool false) end)) (
          field "raw_text_returned" (bool false) (field "outbound_actions" (str "disabled") end)))))

-- A receipt whose state claims the API is refused for that alone.
claim_refused :
    (validate_observed_full_receipt rt receipt).blockers ≡ "observed_receipt_claims_api_full" ∷ []
unfolding validate_observed_full_receipt claims_api_full lower
claim_refused = refl

validate-IsObservedFull_example :
    ((validate_observed_full_receipt rt receipt).valid ≡ true) ↔ IsObservedFull rt receipt
validate-IsObservedFull_example = validate-IsObservedFull rt receipt

abbrev reconciliation : Reconciliation
reconciliation = record {
  schema = str "dcb-capture-loop-reconcile.v1";
  full_capture_confirmed = bool true;
  blockers = [];
}

abbrev request : CloseoutRequest
request = record {
  visible_route = true;
  visible_source_observed = true;
  observed_full_requested = true;
  date_continuity_operator_attested = true;
  scan_pass_count = 2;
  last_pass_new_message_count = some 0;
  edited_message_count = 0;
}

closeout_verified :
    (build_observed_full_closeout reconciliation request).observed_full_verified ≡ true
unfolding build_observed_full_closeout
closeout_verified = refl

closeout-ObservedInFull_example :
    (((build_observed_full_closeout reconciliation request).observed_full_verified ≡ true)
      ↔ ObservedInFull reconciliation request)
    × ((build_observed_full_closeout reconciliation request).api_full_verified ≡ false)
closeout-ObservedInFull_example = closeout-ObservedInFull reconciliation request
