-- ===== src/Capture/Orchestrator/Closing.antt =====
-- How a run closes: as full only through a gate that confirms this very capture, and for good.
use discord_context_bridge.Shared.{
  ◌≡◌, refl, ◌⊎◌, inl, inr, true, false, Option, none, some, arith, ok, String, Fields, find, get,
  is_text, is_true, Runtime, eq_iff, Bool-cases, Option-cases, List, [], ◌∷◌, sym, ap, ◌∙◌,
}
use discord_context_bridge.Capture.Orchestrator.{
  State, EventName, Event, Run, received, full_closed, gate_evaluating, route_ready, gate_full,
  gate_blocked, auth_required, human_approval_required, auth_resolved, human_approval_granted,
  retryable_failure, retry_due, is_terminal, close_full, progress, apply_event, is_full_gate,
  record_event, advance_capture_run, advance_all, gate_digest, fresh_run, ℤ, new_capture_run,
}
use discord_context_bridge.Capture.Orchestrator.Checkpoints.{
  advance-eq-ok, advance_all-cons, new_capture_run-eq-ok,
}

-- What a gate must say to close the run `a` as full.
pub record ConfirmsFull (a : Run) (e : Event) (gate : Fields) : Type 0 where
  pub presented : e.gate ≡ some gate
  pub status : is_text "full" (get "status" gate) ≡ true
  pub confirmed : is_true (get "full_capture_confirmed" gate) ≡ true
  pub capture : e.capture_id ≡ some a.capture_id
  pub bound :
      (find "capture_id" gate ≡ none) ⊎ (is_text a.capture_id (get "capture_id" gate) ≡ true)
  pub disabled : is_text "disabled" (get "outbound_actions" gate) ≡ true

is_full_gate-ConfirmsFull :
    (a : Run) (e : Event) (gate : Fields) (id : String)
    → e.gate ≡ some gate
    → e.capture_id ≡ some id
    → is_full_gate a e gate ≡ true
    → ConfirmsFull a e gate
unfolding is_full_gate
is_full_gate-ConfirmsFull a e gate id p i h = ground (arith, eq_iff id a.capture_id)

is_full_gate-named :
    (a : Run) (e : Event) (gate : Fields)
    → is_full_gate a e gate ≡ true
    → (id : String) × (e.capture_id ≡ some id)
unfolding is_full_gate
is_full_gate-named a e gate h = elim (Option-cases e.capture_id) [
  | inl absent ↦ absurd (ground arith)
  | inr named ↦ named
]

close_full-ConfirmsFull :
    (rt : Runtime) (a : Run) (e : Event) {r : Run}
    → close_full rt a e ≡ ok r
    → (gate : Fields) × ConfirmsFull a e gate × (r.gate_evidence_digest ≡ gate_digest rt a gate)
unfolding close_full
close_full-ConfirmsFull rt a e h = elim (Option-cases e.gate) [
  | inl absent ↦ absurd (ground arith)
  | inr (gate, given) ↦ elim (Bool-cases (is_full_gate a e gate)) [
    | inl passed ↦
        let (id, i) = is_full_gate-named a e gate passed in
        (gate, is_full_gate-ConfirmsFull a e gate id given i passed, ground arith)
    | inr failed ↦ absurd (ground arith)
  ]
]

progress-resume :
    (rt : Runtime) (run : Run) (e : Event) (s : State) (n : EventName) {r : Run}
    → progress rt run e s n ≡ ok r
    → r.resume_state ≡ run.resume_state
unfolding progress
progress-resume rt run e received route_ready h = ground arith
progress-resume rt run e gate_evaluating gate_full h = ground arith
progress-resume rt run e gate_evaluating gate_blocked h = ground arith
progress-resume rt run e s n h = ground arith

-- Only the full gate leads to `full_closed`.
progress-full_closed :
    (rt : Runtime) (run : Run) (e : Event) (s : State) (n : EventName) {r : Run}
    → progress rt run e s n ≡ ok r
    → r.state ≡ full_closed
    → (s ≡ gate_evaluating) × (n ≡ gate_full) × (close_full rt run e ≡ ok r)
unfolding progress
progress-full_closed rt run e received route_ready h f = ground arith
progress-full_closed rt run e gate_evaluating gate_full h f = (refl, refl, h)
progress-full_closed rt run e gate_evaluating gate_blocked h f = ground arith
progress-full_closed rt run e s n h f = ground arith

-- A state to come back to is never terminal.
abbrev ResumesLive : Run → Type 0
ResumesLive r = (s : State) → r.resume_state ≡ some s → is_terminal s ≡ false

apply_event-ResumesLive :
    (rt : Runtime) (run : Run) (e : Event) (n : EventName) {r : Run}
    → is_terminal run.state ≡ false
    → ResumesLive run
    → apply_event rt run e n ≡ ok r
    → ResumesLive r
unfolding apply_event
apply_event-ResumesLive rt run e auth_required live h q s = ground arith
apply_event-ResumesLive rt run e human_approval_required live h q s = ground arith
apply_event-ResumesLive rt run e auth_resolved live h q s = ground arith
apply_event-ResumesLive rt run e human_approval_granted live h q s = ground arith
apply_event-ResumesLive rt run e retryable_failure live h q s = ground (arith, h s)
apply_event-ResumesLive rt run e retry_due live h q s = ground arith
apply_event-ResumesLive rt run e n live h q s =
    λ p. h s (sym (progress-resume rt run e run.state n q) ∙ p)

apply_event-full_closed :
    (rt : Runtime) (run : Run) (e : Event) (n : EventName) {r : Run}
    → ResumesLive run
    → apply_event rt run e n ≡ ok r
    → r.state ≡ full_closed
    → (run.state ≡ gate_evaluating) × (n ≡ gate_full) × (close_full rt run e ≡ ok r)
unfolding apply_event is_terminal
apply_event-full_closed rt run e auth_required live h f = ground arith
apply_event-full_closed rt run e human_approval_required live h f = ground arith
apply_event-full_closed rt run e auth_resolved live h f = ground (arith, live full_closed)
apply_event-full_closed rt run e human_approval_granted live h f = ground (arith, live full_closed)
apply_event-full_closed rt run e retryable_failure live h f = ground arith
apply_event-full_closed rt run e retry_due live h f = ground (arith, live full_closed)
apply_event-full_closed rt run e n live h f = progress-full_closed rt run e run.state n h f

advance-ResumesLive :
    (rt : Runtime) (run : Run) (e : Event) {r : Run}
    → ResumesLive run
    → advance_capture_run rt run e ≡ ok r
    → ResumesLive r
unfolding record_event
advance-ResumesLive rt run e h q =
    let (live, b, p, recorded) = advance-eq-ok rt run e q in
    rw recorded (apply_event-ResumesLive rt run e e.name live h p)

advance_all-ResumesLive :
    (rt : Runtime) (run : Run) (es : List Event) {r : Run}
    → ResumesLive run
    → advance_all rt run es ≡ ok r
    → ResumesLive r
unfolding advance_all
advance_all-ResumesLive rt run [] {r} h q = let e : run ≡ r = cc in rw (← e) h
advance_all-ResumesLive rt run (e ∷ es) h q =
    let (b, p, rest) = advance_all-cons rt run e es q in
    advance_all-ResumesLive rt b es (advance-ResumesLive rt run e h p) rest

-- In a capture, whatever came before, an event that closes the run as full is a `gate_full` event
-- met in `gate_evaluating`. It names this capture and carries a gate whose status is full, which is
-- confirmed, which is bound to no other capture and which disables outbound actions; the run keeps
-- the digest of that gate.
pub full_closed-ConfirmsFull :
    (rt : Runtime) (target route watermark : String) (budget : ℤ) (attempt : Option String)
    (es : List Event) (e : Event) {start run r : Run}
    → new_capture_run rt target route watermark budget attempt ≡ ok start
    → advance_all rt start es ≡ ok run
    → advance_capture_run rt run e ≡ ok r
    → r.state ≡ full_closed
    → (run.state ≡ gate_evaluating)
      × (e.name ≡ gate_full)
      × (gate : Fields) × ConfirmsFull run e gate
      × (r.gate_evidence_digest ≡ gate_digest rt run gate)
unfolding record_event fresh_run
full_closed-ConfirmsFull rt target route watermark budget attempt es e {start} {run} new all step
      f =
    let (n, i, made) = new_capture_run-eq-ok rt target route watermark budget attempt new in
    let before : ResumesLive start = rw made (λ s p. cc) in
    let (live, b, p, recorded) = advance-eq-ok rt run e step in
    let (at, name, closed) =
      apply_event-full_closed rt run e e.name (advance_all-ResumesLive rt start es before all) p
        (sym (ap (λ (x : Run). x.state) recorded) ∙ f) in
    let (gate, confirms, kept) = close_full-ConfirmsFull rt run e closed in
    (at, name, gate, confirms, rw recorded kept)
