-- ===== src/Capture/Orchestrator.antt =====
-- capture/orchestrator.py: the resumable state machine of a full capture.
-- A run is the envelope that the code persists; every operation returns a new one or raises.
-- The state, blocker and event names are data types; an event name that the code does not know
-- is `other`. An action identifier is a text. `gate` is the payload of a completion gate.
pub mod Checkpoints
pub mod Closing
pub mod Recovery
pub mod Completion
mod Tests
use discord_context_bridge.Shared.{
  ℕ, suc, ◌+◌, Bool, true, false, not, ◌&&◌, ◌||◌, Option, none, some, String, List, [], ◌∷◌, ◌++◌,
  str_eq, Result, ok, err, ◌>>=◌, ◌>>◌, require, ltb, if◌then◌else◌, length, contains, codes, ℤ,
  pos, negsuc, Value, str, obj, Fields, find, get, is_text, is_true, is_some, Runtime, digest,
}
use discord_context_bridge.AcquisitionGate.Identity.{
  IdentityError, matches_attempt_id, attempt_identity, capture_id_from_attempt_identity,
}

pub data State : Type 0 where
  received route_preflight traversing_to_oldest traversing_to_latest : State
  attachment_inventory downloading_attachments reconciling stable_rescan gate_evaluating : State
  full_closed blocked_closed paused_auth paused_human_approval retry_wait : State

pub data EventName : Type 0 where
  visible_snapshot_saved route_ready oldest_reached latest_reached : EventName
  attachment_inventory_complete attachments_saved reconciled stable_rescan_complete : EventName
  gate_partial gate_full gate_blocked : EventName
  auth_required human_approval_required auth_resolved human_approval_granted : EventName
  retryable_failure retry_due : EventName
  other : String → EventName

pub data Blocker : Type 0 where
  auth_required human_approval_required retryable_failure : Blocker
  retry_budget_exhausted full_capture_gate_blocked scan_pass_budget_exhausted : Blocker

pub data Lane : Type 0 where
  pending running saved full blocked : Lane

pub data RunError : Type 0 where
  unsupported_route negative_retry_budget unsafe_attempt_id terminal_state : RunError
  unresolved_blocker invalid_transition unscoped_approval unbound_gate : RunError
  invalid_identity : IdentityError → RunError
  scan_pass_missing scan_pass_invalid : RunError

pub record Event : Type 0 where
  pub name : EventName
  pub requested_action : Option String
  pub approved_action : Option String
  pub capture_id : Option String
  pub gate : Option Fields

pub record Checkpoint : Type 0 where
  pub sequence : ℕ
  pub event : EventName
  pub state : State

pub record Run : Type 0 where
  pub capture_id : String
  pub idempotency_key : String
  pub target_digest : String
  pub upper_watermark_digest : String
  pub route : String
  pub state : State
  pub resume_state : Option State
  pub blocker : Option Blocker
  pub pending_approval_action : Option String
  pub automatic_fallback_attempted : Bool
  pub retry_budget : ℕ
  pub retry_used : ℕ
  pub immediate_visible : Lane
  pub background_full : Lane
  pub checkpoints : List Checkpoint
  pub capture_identity : Option Value
  pub gate_evidence_digest : Option String

abbrev pub supported_routes : List String
supported_routes =
    "in_app_browser" ∷ "chrome_extension" ∷ "rest_backfill" ∷ "saved_artifacts"
    ∷ "discord_desktop_accessibility" ∷ []

-- `_TRANSITIONS.get((state, event_name))`
unfoldable pub transition : State → EventName → Option State
transition received visible_snapshot_saved = some route_preflight
transition route_preflight route_ready = some traversing_to_oldest
transition traversing_to_oldest oldest_reached = some traversing_to_latest
transition traversing_to_latest latest_reached = some attachment_inventory
transition attachment_inventory attachment_inventory_complete = some downloading_attachments
transition downloading_attachments attachments_saved = some reconciling
transition reconciling reconciled = some stable_rescan
transition stable_rescan stable_rescan_complete = some gate_evaluating
transition gate_evaluating gate_partial = some stable_rescan
transition _ _ = none

unfoldable pub is_terminal : State → Bool
is_terminal full_closed = true
is_terminal blocked_closed = true
is_terminal _ = false

unfoldable pub capture_watermark_digest : Runtime → String → String
capture_watermark_digest rt message_id = digest rt ("watermark" ∷ message_id ∷ [])

-- The capture id, and the identity record of an explicit attempt.
unfoldable pub identify : Runtime → String → Option String → Result RunError (String × Option Value)
identify rt base none = ok (base, none)
identify rt base (some attempt) =
    if matches_attempt_id (codes attempt)
    then (elim (capture_id_from_attempt_identity rt (attempt_identity base attempt)) [
      | ok id ↦ ok (id, some (attempt_identity base attempt))
      | err e ↦ err (invalid_identity e)
    ])
    else err unsafe_attempt_id

abbrev version : String
version = "dcb-full-capture-orchestrator.v1"

unfoldable pub fresh_run : Runtime → String → String → String → ℕ → String × Option Value → Run
unfolding capture_watermark_digest
fresh_run rt target_key route upper_watermark budget (capture_id, identity) = record {
  capture_id = capture_id;
  idempotency_key = digest rt ("idempotency" ∷ capture_id ∷ []);
  target_digest = digest rt ("target" ∷ target_key ∷ []);
  upper_watermark_digest = capture_watermark_digest rt upper_watermark;
  route = route;
  state = received;
  resume_state = none;
  blocker = none;
  pending_approval_action = none;
  automatic_fallback_attempted = false;
  retry_budget = budget;
  retry_used = 0;
  immediate_visible = pending;
  background_full = running;
  checkpoints = [];
  capture_identity = identity;
  gate_evidence_digest = none;
}

unfoldable pub new_capture_run :
    Runtime → String → String → String → ℤ → Option String → Result RunError Run
unfolding identify
new_capture_run rt target_key route upper_watermark (negsuc n) attempt_id =
    if contains route supported_routes then err negative_retry_budget else err unsupported_route
new_capture_run rt target_key route upper_watermark (pos budget) attempt_id =
    if contains route supported_routes
    then (do
      identity ←
          identify rt (digest rt (version ∷ target_key ∷ route ∷ upper_watermark ∷ [])) attempt_id
      ok (fresh_run rt target_key route upper_watermark budget identity))
    else err unsupported_route

-- `auth_required` and `human_approval_required`
unfoldable pub raise_blocker : Run → State → Blocker → Option String → Result RunError Run
raise_blocker run paused blocker action =
    if is_some run.blocker
    then err unresolved_blocker
    else ok (record run {
      resume_state = some run.state;
      state = paused;
      blocker = some blocker;
      automatic_fallback_attempted = false;
      pending_approval_action = action;
    })

abbrev pub same_state : State → State → Bool
same_state paused_auth paused_auth = true
same_state paused_human_approval paused_human_approval = true
same_state retry_wait retry_wait = true
same_state _ _ = false

-- Back to the state before the pause, if the run is in the pause that the event ends.
unfoldable pub resume_from : Run → State → Result RunError Run
resume_from run expected =
    if same_state run.state expected
    then (elim run.resume_state [
      | none ↦ err invalid_transition
      | some s ↦ ok (record run { state = s; resume_state = none; blocker = none })
    ])
    else err invalid_transition

abbrev pub is_action : Option String → String → Bool
is_action none s = false
is_action (some t) s = str_eq t s

-- `pending_action is None or event_data.get("approved_action") == pending_action`
abbrev pub covers : Option String → Option String → Bool
covers none approved = true
covers (some action) approved = is_action approved action

-- The approval names this capture and, if an action was asked for, that action.
unfoldable pub approves : Run → Event → Bool
approves run e =
    is_action e.capture_id run.capture_id && covers run.pending_approval_action e.approved_action

-- `auth_resolved` and `human_approval_granted`
unfoldable pub resolve_auth : Run → Result RunError Run
unfolding resume_from
resolve_auth run = do
  r ← resume_from run paused_auth
  ok (record r { pending_approval_action = none })

unfoldable pub grant_approval : Run → Event → Result RunError Run
unfolding resume_from
grant_approval run e = do
  r ← resume_from run paused_human_approval
  require (approves run e) unscoped_approval
  ok (record r { pending_approval_action = none })

unfoldable pub count_retry : Run → Run
count_retry run =
    if ltb run.retry_budget (run.retry_used + 1)
    then record run {
      retry_used = run.retry_used + 1;
      state = blocked_closed;
      blocker = some retry_budget_exhausted;
      background_full = blocked;
    }
    else record run {
      retry_used = run.retry_used + 1;
      resume_state = some run.state;
      state = retry_wait;
      blocker = some Blocker.retryable_failure;
    }

-- `gate.get("capture_id", updated["capture_id"]) == updated["capture_id"]`
abbrev pub bound_or_absent : String → Option Value → Bool
bound_or_absent id none = true
bound_or_absent id (some v) = is_text id v

unfoldable pub is_full_gate : Run → Event → Fields → Bool
is_full_gate run e gate =
    is_text "full" (get "status" gate)
    && is_true (get "full_capture_confirmed" gate)
    && is_action e.capture_id run.capture_id
    && bound_or_absent run.capture_id (find "capture_id" gate)
    && is_text "disabled" (get "outbound_actions" gate)

unfoldable pub is_blocked_gate : Run → Event → Fields → Bool
is_blocked_gate run e gate =
    is_text "blocked" (get "status" gate)
    && is_action e.capture_id run.capture_id
    && is_text run.capture_id (get "capture_id" gate)

-- `_digest("gate", capture_id, str(sorted(gate.items())))`
unfoldable pub gate_digest : Runtime → Run → Fields → Option String
gate_digest rt run gate = some (digest rt ("gate" ∷ run.capture_id ∷ rt.repr (obj gate) ∷ []))

unfoldable pub close_full : Runtime → Run → Event → Result RunError Run
close_full rt run e = elim e.gate [
  | none ↦ err unbound_gate
  | some gate ↦
      if is_full_gate run e gate
      then ok (record run { state = full_closed; gate_evidence_digest = gate_digest rt run gate })
      else err unbound_gate
]

unfoldable pub close_blocked : Runtime → Run → Event → Result RunError Run
close_blocked rt run e = elim e.gate [
  | none ↦ err unbound_gate
  | some gate ↦
      if is_blocked_gate run e gate
      then ok (record run {
        state = blocked_closed;
        blocker = some full_capture_gate_blocked;
        gate_evidence_digest = gate_digest rt run gate;
      })
      else err unbound_gate
]

unfoldable pub follow : Run → Option State → Result RunError Run
follow run none = err invalid_transition
follow run (some s) = ok (record run { state = s })

-- The last branch of `advance_capture_run`, by the state and the event.
unfoldable pub progress : Runtime → Run → Event → State → EventName → Result RunError Run
unfolding close_full close_blocked follow transition
progress rt run e received route_ready =
    if contains run.route ("rest_backfill" ∷ "saved_artifacts" ∷ [])
    then follow run (some traversing_to_oldest)
    else follow run (transition received route_ready)
progress rt run e gate_evaluating gate_full = close_full rt run e
progress rt run e gate_evaluating gate_blocked = close_blocked rt run e
progress rt run e state name = follow run (transition state name)

unfoldable pub apply_event : Runtime → Run → Event → EventName → Result RunError Run
unfolding raise_blocker resolve_auth grant_approval count_retry resume_from
apply_event rt run e auth_required = raise_blocker run paused_auth Blocker.auth_required none
apply_event rt run e human_approval_required =
    raise_blocker run paused_human_approval Blocker.human_approval_required e.requested_action
apply_event rt run e auth_resolved = resolve_auth run
apply_event rt run e human_approval_granted = grant_approval run e
apply_event rt run e retryable_failure = ok (count_retry run)
apply_event rt run e retry_due = resume_from run retry_wait
apply_event rt run e name = progress rt run e run.state name

abbrev pub visible_lane : EventName → Lane → Lane
visible_lane visible_snapshot_saved lane = saved
visible_lane _ lane = lane

abbrev pub background_lane : State → Lane → Lane
background_lane full_closed lane = full
background_lane blocked_closed lane = blocked
background_lane _ lane = lane

-- The lanes and the checkpoint, after the event was applied.
unfoldable pub record_event : Run → EventName → Run
record_event run name = record run {
  immediate_visible = visible_lane name run.immediate_visible;
  background_full = background_lane run.state run.background_full;
  checkpoints =
      run.checkpoints
      ++ record { sequence = length run.checkpoints + 1; event = name; state = run.state } ∷ [];
}

unfoldable pub advance_capture_run : Runtime → Run → Event → Result RunError Run
advance_capture_run rt run e =
    if is_terminal run.state
    then err terminal_state
    else do r ← apply_event rt run e e.name; ok (record_event r e.name)

-- The events of a capture, one after the other.
unfoldable pub advance_all : Runtime → Run → List Event → Result RunError Run
advance_all rt run [] = ok run
advance_all rt run (e ∷ es) = do r ← advance_capture_run rt run e; advance_all rt r es
