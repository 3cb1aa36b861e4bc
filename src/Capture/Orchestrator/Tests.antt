-- ===== src/Capture/Orchestrator/Tests.antt =====
-- Runs of the orchestrator on concrete events, and the theorems at them.
use discord_context_bridge.Shared.{
  ℕ, ◌≡◌, ◌≢◌, refl, ◌⊎◌, inl, true, none, some, arith, ok, err, List, [], ◌∷◌, Runtime, pos,
  negsuc, map, digest, ◌+◌, ◌++◌, Fields,
}
use discord_context_bridge.Capture.Orchestrator.{
  State, EventName, Event, Run, visible_snapshot_saved, route_ready, advance_capture_run,
  advance_all, new_capture_run, fresh_run, record_event, transition, progress, apply_event,
  is_terminal, invalid_transition, received, paused_auth, gate_evaluating, full_closed, close_full,
  auth_required, unsupported_route, is_full_gate, auth_resolved, oldest_reached, approves,
  grant_approval, latest_reached, resolve_auth, attachment_inventory_complete, attachments_saved,
  reconciled, stable_rescan_complete, digest, saved, retryable_failure, Checkpoint, Blocker,
  unbound_gate, route_preflight, full, gate_full, retry_due, gate_digest, Fields,
  traversing_to_oldest, traversing_to_latest, attachment_inventory, downloading_attachments,
  reconciling, stable_rescan,
}
use discord_context_bridge.Capture.Orchestrator.Checkpoints.{
  IsConsistent, SameCapture, logged_events, capture-IsConsistent,
}
use discord_context_bridge.Capture.Orchestrator.Closing.{ConfirmsFull, full_closed-ConfirmsFull}
use discord_context_bridge.Capture.Orchestrator.Recovery.{is_pause, retryable_failure-paused-lost}
use discord_context_bridge.Capture.Orchestrator.Completion.{
  CanComplete, is_resumable, plain, full_event, resumable-completes, advance-is_resumable, is_stage,
}

program : Unit {0}
unfolding new_capture_run fresh_run advance_all advance_capture_run record_event apply_event
    progress transition is_terminal close_full is_full_gate approves grant_approval resolve_auth
    digest gate_digest is_stage is_resumable is_pause
program = tt

abbrev rt : Runtime
rt = record { sha256 = λ text. "5e1f"; repr = λ value. "[]" }

abbrev start : Run
start = fresh_run rt "target" "in_app_browser" "m9" 1 ("5e1f", none)

start_lem : new_capture_run rt "target" "in_app_browser" "m9" (pos 1) none ≡ ok start
unfolding program
start_lem = refl

unsupported : new_capture_run rt "target" "telnet" "m9" (negsuc 0) none ≡ err unsupported_route
unfolding program
unsupported = refl

abbrev to_gate : List Event
to_gate = map plain (
    visible_snapshot_saved ∷ auth_required ∷ auth_resolved ∷ route_ready ∷ oldest_reached
    ∷ latest_reached ∷ attachment_inventory_complete ∷ attachments_saved ∷ reconciled
    ∷ stable_rescan_complete ∷ [])

-- The checkpoints of these events.
abbrev log_from : ℕ → List (EventName × State) → List Checkpoint
log_from n [] = []
log_from n ((e, s) ∷ rest) = record { sequence = n; event = e; state = s } ∷ log_from (n + 1) rest

abbrev steps : List (EventName × State)
steps =
    (visible_snapshot_saved, route_preflight)
    ∷ (auth_required, paused_auth)
    ∷ (auth_resolved, route_preflight)
    ∷ (route_ready, traversing_to_oldest)
    ∷ (oldest_reached, traversing_to_latest)
    ∷ (latest_reached, attachment_inventory)
    ∷ (attachment_inventory_complete, downloading_attachments)
    ∷ (attachments_saved, reconciling)
    ∷ (reconciled, stable_rescan)
    ∷ (stable_rescan_complete, gate_evaluating)
    ∷ []

abbrev at_gate : Run
at_gate = record start {
  state = gate_evaluating;
  immediate_visible = saved;
  checkpoints = log_from 1 steps;
}

to_gate_lem : advance_all rt start to_gate ≡ ok at_gate
unfolding program
to_gate_lem = refl

abbrev closed : Run
closed = record at_gate {
  state = full_closed;
  background_full = full;
  checkpoints = log_from 1 (steps ++ (gate_full, full_closed) ∷ []);
  gate_evidence_digest = some "5e1f";
}

closed_lem : advance_capture_run rt at_gate (full_event "5e1f") ≡ ok closed
unfolding program
closed_lem = refl

-- A gate of another capture does not close the run.
foreign_gate : advance_capture_run rt at_gate (full_event "0000") ≡ err unbound_gate
unfolding program
foreign_gate = refl

-- The pause that a retryable failure interrupts has nowhere to come back to.
abbrev interrupted : List Event
interrupted = map plain (auth_required ∷ retryable_failure ∷ retry_due ∷ auth_resolved ∷ [])

interrupted_lem : advance_all rt start interrupted ≡ err invalid_transition
unfolding program
interrupted_lem = refl

abbrev paused : Run
paused = record start {
  state = paused_auth;
  resume_state = some received;
  blocker = some Blocker.auth_required;
  checkpoints = log_from 1 ((auth_required, paused_auth) ∷ []);
}

capture-IsConsistent_example :
    IsConsistent at_gate
    × SameCapture start at_gate
    × (logged_events at_gate ≡ map (λ e. e.name) to_gate)
capture-IsConsistent_example =
    capture-IsConsistent rt "target" "in_app_browser" "m9" (pos 1) none to_gate start_lem
      to_gate_lem

full_closed-ConfirmsFull_example :
    (at_gate.state ≡ gate_evaluating)
    × ((full_event "5e1f").name ≡ gate_full)
    × (gate : Fields) × ConfirmsFull at_gate (full_event "5e1f") gate
    × (closed.gate_evidence_digest ≡ gate_digest rt at_gate gate)
full_closed-ConfirmsFull_example =
    full_closed-ConfirmsFull rt "target" "in_app_browser" "m9" (pos 1) none to_gate
      (full_event "5e1f") start_lem to_gate_lem closed_lem refl

retryable_failure-paused-lost_example :
    (b : Run) × (advance_capture_run rt paused (plain EventName.retryable_failure) ≡ ok b)
    × ((es : List Event) (r : Run) → advance_all rt b es ≡ ok r → r.state ≢ full_closed)
unfolding program
retryable_failure-paused-lost_example =
    retryable_failure-paused-lost rt paused (plain EventName.retryable_failure) refl refl
      (omega arith)

resumable-completes_example : CanComplete rt paused
unfolding program
resumable-completes_example = resumable-completes rt paused refl

advance-is_resumable_example : (is_resumable paused ≡ true) ⊎ (is_terminal paused.state ≡ true)
unfolding program
advance-is_resumable_example =
    advance-is_resumable rt start (plain EventName.auth_required) (inl refl) refl refl
