-- ===== src/Capture/Orchestrator/Completion.antt =====
-- A run that has a state of the capture to come back to can always be completed, and only a
-- retryable failure during a pause takes that away.
use discord_context_bridge.Capture.Orchestrator.{
  State, EventName, Event, Run, received, route_preflight, traversing_to_oldest,
  traversing_to_latest, attachment_inventory, downloading_attachments, reconciling, stable_rescan,
  gate_evaluating, full_closed, visible_snapshot_saved, oldest_reached, latest_reached,
  attachment_inventory_complete, attachments_saved, reconciled, stable_rescan_complete, route_ready,
  gate_full, gate_blocked, auth_required, human_approval_required, auth_resolved,
  human_approval_granted, retryable_failure, retry_due, paused_auth, paused_human_approval,
  retry_wait, transition, is_terminal, progress, apply_event, record_event, advance_capture_run,
  advance_all, follow, Fields, gate_digest, close_full, str, is_full_gate, is_some, approves,
  covers, close_blocked, grant_approval,
}
use discord_context_bridge.Capture.Orchestrator.Checkpoints.{advance-eq-ok}
use discord_context_bridge.Capture.Orchestrator.Recovery.{is_pause, advance_live}
use discord_context_bridge.Shared.{
  ◌≡◌, ◌≢◌, ◌∙◌, refl, ◌⊎◌, inl, inr, Bool, ◌&&◌, not, true, false, Option, none, some, arith, ok,
  String, List, [], ◌∷◌, Runtime, Fields, field, eq_refl, bool, end, ◌||◌, is_some, Option-cases,
  Bool-cases,
}

-- A state of the capture itself.
unfoldable pub is_stage : State → Bool
unfolding is_pause is_terminal
is_stage s = not (is_pause s) && not (is_terminal s)

-- Some events, all accepted, close the run as full.
abbrev pub CanComplete : Runtime → Run → Type 0
CanComplete rt run =
    (es : List Event) × (r : Run) × (advance_all rt run es ≡ ok r) × (r.state ≡ full_closed)

-- An event that carries nothing.
abbrev pub plain : EventName → Event
plain n = record {
  name = n;
  requested_action = none;
  approved_action = none;
  capture_id = none;
  gate = none;
}

advance_transition :
    (rt : Runtime) (run : Run) (s : State) (n : EventName) {t : State}
    → run.state ≡ s
    → transition s n ≡ some t
    → advance_capture_run rt run (plain n) ≡ ok (record_event (record run { state = t }) n)
unfolding advance_capture_run is_terminal apply_event progress transition follow
advance_transition rt run received visible_snapshot_saved h p = ground arith
advance_transition rt run s n h p = ground arith

complete_step :
    (rt : Runtime) (run : Run) (e : Event) {b : Run}
    → advance_capture_run rt run e ≡ ok b
    → CanComplete rt b
    → CanComplete rt run
unfolding advance_all
complete_step rt run e h (es, r, p, f) = (e ∷ es, r, rw h p, f)

-- The gate that confirms a capture.
abbrev pub confirming_gate : Fields
confirming_gate =
    field "status" (str "full")
      (field "full_capture_confirmed" (bool true) (field "outbound_actions" (str "disabled") end))

abbrev pub full_event : String → Event
full_event id = record {
  name = gate_full;
  requested_action = none;
  approved_action = none;
  capture_id = some id;
  gate = some confirming_gate;
}

abbrev closed_by : Runtime → Run → Run
closed_by rt run = record run {
  state = full_closed;
  gate_evidence_digest = gate_digest rt run confirming_gate;
}

advance_gate :
    (rt : Runtime) (run : Run)
    → run.state ≡ gate_evaluating
    → advance_capture_run rt run (full_event run.capture_id)
      ≡ ok (record_event (closed_by rt run) gate_full)
unfolding apply_event progress close_full is_full_gate is_terminal
advance_gate rt run h =
    advance_live rt run (full_event run.capture_id) gate_full (rw h refl) refl ∙ simp (h, eq_refl)

complete_gate : (rt : Runtime) (run : Run) → run.state ≡ gate_evaluating → CanComplete rt run
unfolding advance_all
complete_gate rt run h =
    complete_step rt run (full_event run.capture_id) (advance_gate rt run h)
      ([], record_event (closed_by rt run) gate_full, refl, unfold record_event in refl)

-- One transition, and a completion from where it leads.
complete_by :
    (rt : Runtime) (run : Run) (s : State) (n : EventName) (t : State)
    → run.state ≡ s
    → transition s n ≡ some t
    → ((b : Run) → b.state ≡ t → CanComplete rt b)
    → CanComplete rt run
complete_by rt run s n t h p next =
    complete_step rt run (plain n) (advance_transition rt run s n h p)
      (next (record_event (record run { state = t }) n) (unfold record_event in refl))

module _ (rt : Runtime) where
  from_rescan : (run : Run) → run.state ≡ stable_rescan → CanComplete rt run
  unfolding transition
  from_rescan run h =
      complete_by rt run stable_rescan stable_rescan_complete gate_evaluating h refl
        (complete_gate rt)

  from_reconciling : (run : Run) → run.state ≡ reconciling → CanComplete rt run
  unfolding transition
  from_reconciling run h =
      complete_by rt run reconciling reconciled stable_rescan h refl from_rescan

  from_downloading : (run : Run) → run.state ≡ downloading_attachments → CanComplete rt run
  unfolding transition
  from_downloading run h =
      complete_by rt run downloading_attachments attachments_saved reconciling h refl
        from_reconciling

  from_inventory : (run : Run) → run.state ≡ attachment_inventory → CanComplete rt run
  unfolding transition
  from_inventory run h =
      complete_by rt run attachment_inventory attachment_inventory_complete downloading_attachments
        h refl from_downloading

  from_latest : (run : Run) → run.state ≡ traversing_to_latest → CanComplete rt run
  unfolding transition
  from_latest run h =
      complete_by rt run traversing_to_latest latest_reached attachment_inventory h refl
        from_inventory

  from_oldest : (run : Run) → run.state ≡ traversing_to_oldest → CanComplete rt run
  unfolding transition
  from_oldest run h =
      complete_by rt run traversing_to_oldest oldest_reached traversing_to_latest h refl from_latest

  from_preflight : (run : Run) → run.state ≡ route_preflight → CanComplete rt run
  unfolding transition
  from_preflight run h =
      complete_by rt run route_preflight route_ready traversing_to_oldest h refl from_oldest

  from_received : (run : Run) → run.state ≡ received → CanComplete rt run
  unfolding transition
  from_received run h =
      complete_by rt run received visible_snapshot_saved route_preflight h refl from_preflight

  from_stage : (s : State) (run : Run) → is_stage s ≡ true → run.state ≡ s → CanComplete rt run
  unfolding is_stage
  from_stage received run h e = from_received run e
  from_stage route_preflight run h e = from_preflight run e
  from_stage traversing_to_oldest run h e = from_oldest run e
  from_stage traversing_to_latest run h e = from_latest run e
  from_stage attachment_inventory run h e = from_inventory run e
  from_stage downloading_attachments run h e = from_downloading run e
  from_stage reconciling run h e = from_reconciling run e
  from_stage stable_rescan run h e = from_rescan run e
  from_stage gate_evaluating run h e = complete_gate rt run e
  from_stage s run h e = cc

-- The run is in a state of the capture, or in a pause with such a state to come back to.
unfoldable pub is_resumable : Run → Bool
unfolding is_stage
is_resumable r =
    is_stage r.state
    || (is_pause r.state
        && is_some r.blocker
        && (elim r.resume_state [ none ↦ false | some s ↦ is_stage s ]))

-- The event that ends the pause of the run.
ending : Run → State → Event
ending run paused_auth = plain auth_resolved
ending run paused_human_approval = record (plain human_approval_granted) {
  capture_id = some run.capture_id;
  approved_action = run.pending_approval_action;
}
ending run s = plain retry_due

abbrev back_at : Run → State → Run
back_at run s = record run { state = s; resume_state = none; blocker = none }

abbrev unpaused : Run → State → Run
unpaused run s = record (back_at run s) { pending_approval_action = none }

covers_self : (o : Option String) → covers o o ≡ true
covers_self none = refl
covers_self (some a) = eq_refl a

grants : (run : Run) → approves run (ending run paused_human_approval) ≡ true
unfolding approves ending
grants run = simp (eq_refl, covers_self)

resumed :
    (rt : Runtime) (run : Run) (p s : State)
    → is_pause p ≡ true
    → run.state ≡ p
    → run.resume_state ≡ some s
    → (b : Run) × (advance_capture_run rt run (ending run p) ≡ ok b) × (b.state ≡ s)
unfolding ending is_pause is_terminal record_event
resumed rt run paused_auth s h e r = (
  record_event (unpaused run s) auth_resolved,
  advance_live rt run (plain auth_resolved) auth_resolved (rw e refl) refl
      ∙ unfold apply_event in simp (e, r),
  refl,
)
resumed rt run paused_human_approval s h e r = (
  record_event (unpaused run s) human_approval_granted,
  advance_live rt run (ending run paused_human_approval) human_approval_granted (rw e refl) refl
      ∙ unfold apply_event grant_approval in simp (e, r, grants run),
  refl,
)
resumed rt run retry_wait s h e r = (
  record_event (back_at run s) retry_due,
  advance_live rt run (plain retry_due) retry_due (rw e refl) refl
      ∙ unfold apply_event in simp (e, r),
  refl,
)
resumed rt run p s h e r = cc

resumable_cases :
    (run : Run)
    → is_resumable run ≡ true
    → (is_stage run.state ≡ true)
      ⊎ ((s : State) × (is_stage s ≡ true)
          × (is_pause run.state ≡ true)
          × (run.resume_state ≡ some s))
unfolding is_resumable
resumable_cases run h = elim (Option-cases run.resume_state) [
  | inl gone ↦ inl (ground arith)
  | inr (s, kept) ↦ elim (Bool-cases (is_stage run.state)) [
    | inl staged ↦ inl staged
    | inr paused ↦ inr (s, ground arith, ground arith, kept)
  ]
]

-- Every resumable run can be completed: there are events, all of them accepted, that end its
-- pause, take it through the stages that are left, and close it as full.
pub resumable-completes : (rt : Runtime) (run : Run) → is_resumable run ≡ true → CanComplete rt run
resumable-completes rt run h = elim (resumable_cases run h) [
  | inl staged ↦ from_stage rt run.state run staged refl
  | inr (s, staged, paused, kept) ↦
      let (b, step, at) = resumed rt run run.state s paused refl kept in
      complete_step rt run (ending run run.state) step (from_stage rt s b staged at)
]

progress-is_stage :
    (rt : Runtime) (run : Run) (e : Event) (s : State) (n : EventName) {r : Run}
    → progress rt run e s n ≡ ok r
    → (is_stage r.state ≡ true) ⊎ (is_terminal r.state ≡ true)
unfolding progress is_stage transition follow close_full close_blocked
progress-is_stage rt run e received route_ready h = ground arith
progress-is_stage rt run e gate_evaluating gate_full h = ground arith
progress-is_stage rt run e gate_evaluating gate_blocked h = ground arith
progress-is_stage rt run e s n h = ground arith

apply_event-is_resumable :
    (rt : Runtime) (run : Run) (e : Event) (n : EventName) {r : Run}
    → (is_pause run.state ≡ false) ⊎ (n ≢ EventName.retryable_failure)
    → is_resumable run ≡ true
    → apply_event rt run e n ≡ ok r
    → (is_resumable r ≡ true) ⊎ (is_terminal r.state ≡ true)
unfolding apply_event is_resumable
apply_event-is_resumable rt run e auth_required calm h p = ground arith
apply_event-is_resumable rt run e human_approval_required calm h p = ground arith
apply_event-is_resumable rt run e auth_resolved calm h p = ground arith
apply_event-is_resumable rt run e human_approval_granted calm h p = ground arith
apply_event-is_resumable rt run e retryable_failure calm h p = ground arith
apply_event-is_resumable rt run e retry_due calm h p = ground arith
apply_event-is_resumable rt run e n calm h p =
    ground (arith, progress-is_stage rt run e run.state n p)

-- An accepted event leaves a resumable run resumable or closes it, unless the event is a
-- retryable failure and the run was paused.
pub advance-is_resumable :
    (rt : Runtime) (run : Run) (e : Event) {r : Run}
    → (is_pause run.state ≡ false) ⊎ (e.name ≢ EventName.retryable_failure)
    → is_resumable run ≡ true
    → advance_capture_run rt run e ≡ ok r
    → (is_resumable r ≡ true) ⊎ (is_terminal r.state ≡ true)
advance-is_resumable rt run e calm h q =
    let (live, b, p, recorded) = advance-eq-ok rt run e q in
    let step : (is_resumable (record_event b e.name) ≡ true)
        ⊎ (is_terminal (record_event b e.name).state ≡ true) =
      unfold is_resumable record_event in apply_event-is_resumable rt run e e.name calm h p in
    rw recorded step
