-- ===== src/FullCapture/Closing.antt =====
-- The gate and the orchestrator together: which gate results close a run as full.
use discord_context_bridge.Capture.Orchestrator.Checkpoints.{advance-eq-ok}
use discord_context_bridge.Capture.Orchestrator.{
  Run, Event, is_full_gate, is_action, State, gate_evaluating, gate_full, progress, close_full,
  invalid_transition, follow, transition, advance_capture_run, full_closed, Lane, gate_digest,
  apply_event, is_terminal, record_event,
}
use discord_context_bridge.FullCapture.{
  GateStatus, full, gate_payload, evaluate_full_capture, status_text, Bool, is_text, str, str_eq,
}
use discord_context_bridge.FullCapture.Conditions.{evaluate-IsComplete}
use discord_context_bridge.Shared.{
  ◌≡◌, ◌↔◌, true, some, none, String, Option, Runtime, Fields, arith, eq_iff, Bool, is_text, str,
  ◌&&◌, str_eq, if◌then◌else◌, err, ok, refl, false, Bool-cases, inl, inr, sym, ◌∙◌, subst,
}

-- The test of the orchestrator, by the parts of the payload.
gate_test :
    (s : GateStatus) (confirmed : Bool) (o : Option String) (id run_id : String)
    → ((confirmed ≡ true) ↔ (s ≡ full))
    → ((is_text "full" (str (status_text s))
          && confirmed
          && is_action o run_id
          && str_eq run_id id
          && true)
        ≡ true)
      ↔ ((s ≡ full) × (o ≡ some run_id) × (id ≡ run_id))
unfolding status_text
gate_test full confirmed none id run_id c = (λ h. ground arith, λ h. ground arith)
gate_test full confirmed (some named) id run_id c = (
  λ h. ground (arith, eq_iff named run_id, eq_iff run_id id),
  λ h. ground (arith, eq_iff named run_id, eq_iff run_id id),
)
gate_test s confirmed o id run_id c = (λ h. ground arith, λ h. ground arith)

-- The test of the orchestrator on a result of the gate.
full_gate_iff :
    (rt : Runtime) (run : Run) (e : Event) (evidence : Fields)
    → (is_full_gate run e (gate_payload (evaluate_full_capture rt evidence)) ≡ true) ↔ (
        ((evaluate_full_capture rt evidence).status ≡ full)
        × (e.capture_id ≡ some run.capture_id)
        × ((evaluate_full_capture rt evidence).capture_id ≡ run.capture_id))
unfolding gate_payload is_full_gate
full_gate_iff rt run e evidence =
    let g = evaluate_full_capture rt evidence in
    gate_test g.status g.full_capture_confirmed e.capture_id g.capture_id run.capture_id
      (evaluate-IsComplete rt evidence).1

abbrev pub is_gate : State → Bool
is_gate gate_evaluating = true
is_gate _ = false

progress-gate_full :
    (rt : Runtime) (run : Run) (e : Event) (s : State)
    → progress rt run e s gate_full
      ≡ (if is_gate s then close_full rt run e else err invalid_transition)
unfolding progress follow transition
progress-gate_full rt run e gate_evaluating = refl
progress-gate_full rt run e s = refl

is_gate_iff : (s : State) → (is_gate s ≡ true) ↔ (s ≡ gate_evaluating)
is_gate_iff s = (λ h. ground arith, λ h. ground arith)

-- The event is accepted and leaves the run closed as full, with the digest of this gate.
abbrev pub Closes : Runtime → Run → Event → Fields → Type 0
Closes rt run e gate =
    (r : Run) × (advance_capture_run rt run e ≡ ok r)
    × (r.state ≡ full_closed)
    × (r.background_full ≡ Lane.full)
    × (r.gate_evidence_digest ≡ gate_digest rt run gate)

close_full-passed :
    (rt : Runtime) (run b : Run) (e : Event) (gate : Fields)
    → e.gate ≡ some gate
    → close_full rt run e ≡ ok b
    → is_full_gate run e gate ≡ true
unfolding close_full
close_full-passed rt run b e gate given h =
    let tested = rw given at h in
    elim (Bool-cases (is_full_gate run e gate)) [
      | inl passed ↦ passed
      | inr failed ↦ absurd (ground arith)
    ]

-- An accepted event of this name met the gate, and the gate passed the test.
closed-passed :
    (rt : Runtime) (run r : Run) (e : Event) (gate : Fields)
    → e.name ≡ gate_full
    → e.gate ≡ some gate
    → advance_capture_run rt run e ≡ ok r
    → (run.state ≡ gate_evaluating) × (is_full_gate run e gate ≡ true)
unfolding apply_event
closed-passed rt run r e gate named given accepted =
    let (live, b, applied, recorded) = advance-eq-ok rt run e accepted in
    let at_state : progress rt run e run.state gate_full ≡ ok b =
      subst (λ n. apply_event rt run e n ≡ ok b) named applied in
    let tested = sym (progress-gate_full rt run e run.state) ∙ at_state in
    elim (Bool-cases (is_gate run.state)) [
      | inl met ↦ (
        (is_gate_iff run.state).0 met,
        close_full-passed rt run b e gate given (rw met at tested),
      )
      | inr elsewhere ↦ absurd (ground arith)
    ]

close_full-passes :
    (rt : Runtime) (run : Run) (e : Event) (gate : Fields)
    → e.gate ≡ some gate
    → is_full_gate run e gate ≡ true
    → close_full rt run e
      ≡ ok (record run { state = full_closed; gate_evidence_digest = gate_digest rt run gate })
unfolding close_full
close_full-passes rt run e gate given passed = ground arith

passed-Closes :
    (rt : Runtime) (run : Run) (e : Event) (gate : Fields)
    → e.name ≡ gate_full
    → e.gate ≡ some gate
    → run.state ≡ gate_evaluating
    → is_full_gate run e gate ≡ true
    → Closes rt run e gate
unfolding advance_capture_run apply_event is_terminal record_event
passed-Closes rt run e gate named given met passed =
    let closed : Run = record run {
      state = full_closed;
      gate_evidence_digest = gate_digest rt run gate;
    } in
    let live : is_terminal run.state ≡ false = subst (λ s. is_terminal s ≡ false) (sym met) refl in
    let at_gate : is_gate run.state ≡ true = (is_gate_iff run.state).1 met in
    let progressed : progress rt run e run.state gate_full ≡ ok closed =
      progress-gate_full rt run e run.state
      ∙ rw at_gate (close_full-passes rt run e gate given passed) in
    let applied : apply_event rt run e e.name ≡ ok closed =
      subst (λ n. apply_event rt run e n ≡ ok closed) (sym named) progressed in
    (record_event closed e.name, rw (live, applied) refl, refl, refl, refl)

-- A `gate_full` event that brings the result of the gate on some evidence is accepted and closes a
-- run as full, recording the digest of that result, exactly if the run is in `gate_evaluating`, the
-- gate said `full` for evidence with the id of this run, and the event names this run.
pub evaluated_gate-Closes :
    (rt : Runtime) (run : Run) (e : Event) (evidence : Fields)
    → e.name ≡ gate_full
    → e.gate ≡ some (gate_payload (evaluate_full_capture rt evidence))
    → Closes rt run e (gate_payload (evaluate_full_capture rt evidence)) ↔ (
        (run.state ≡ gate_evaluating)
        × ((evaluate_full_capture rt evidence).status ≡ full)
        × (e.capture_id ≡ some run.capture_id)
        × ((evaluate_full_capture rt evidence).capture_id ≡ run.capture_id))
evaluated_gate-Closes rt run e evidence named given =
    let gate = gate_payload (evaluate_full_capture rt evidence) in
    let test = full_gate_iff rt run e evidence in
    (
      λ h.
          let (met, passed) = closed-passed rt run h.0 e gate named given h.1 in
          let says = test.0 passed in (met, says.0, says.1, says.2),
      λ h. passed-Closes rt run e gate named given h.0 (test.1 (h.1, h.2, h.3)),
    )
