-- ===== src/Capture/Orchestrator/Recovery.antt =====
-- Pauses and retries: a run that is paused once comes back and can be completed; a retryable
-- failure during a pause loses the state to come back to, and no events complete that run.
use discord_context_bridge.Shared.{
  ◌≡◌, ◌≢◌, ◌<◌, refl, ◌⊎◌, inl, inr, Bool, ◌&&◌, true, false, none, some, arith, ok, List, [], ◌∷◌,
  Runtime, ◌∙◌, ◌>>=◌,
}
use discord_context_bridge.Capture.Orchestrator.{
  State, EventName, Event, Run, received, full_closed, blocked_closed, gate_evaluating, route_ready,
  gate_full, gate_blocked, auth_required, human_approval_required, auth_resolved,
  human_approval_granted, retryable_failure, retry_due, paused_auth, paused_human_approval,
  retry_wait, is_terminal, progress, apply_event, record_event, advance_capture_run, advance_all,
  count_retry,
}
use discord_context_bridge.Capture.Orchestrator.Checkpoints.{advance-eq-ok, advance_all-cons}

-- A state that only an approval, a login or a retry leaves.
unfoldable pub is_pause : State → Bool
is_pause paused_auth = true
is_pause paused_human_approval = true
is_pause retry_wait = true
is_pause _ = false

-- A paused run that has no state of the capture itself to come back to.
unfoldable pub is_lost : Run → Bool
unfolding is_pause
is_lost r = is_pause r.state && (elim r.resume_state [ none ↦ true | some s ↦ is_pause s ])

progress_pause :
    (rt : Runtime) (run : Run) (e : Event) (s : State) (n : EventName) {r : Run}
    → is_pause s ≡ true
    → progress rt run e s n ≡ ok r
    → ⊥
unfolding progress is_pause
progress_pause rt run e received route_ready h p = cc
progress_pause rt run e gate_evaluating gate_full h p = cc
progress_pause rt run e gate_evaluating gate_blocked h p = cc
progress_pause rt run e s n h p = ground arith

apply_event-is_lost :
    (rt : Runtime) (run : Run) (e : Event) (n : EventName) {r : Run}
    → is_lost run ≡ true
    → apply_event rt run e n ≡ ok r
    → (is_lost r ≡ true) ⊎ (r.state ≡ blocked_closed)
unfolding apply_event is_lost
apply_event-is_lost rt run e auth_required h p = ground arith
apply_event-is_lost rt run e human_approval_required h p = ground arith
apply_event-is_lost rt run e auth_resolved h p = ground arith
apply_event-is_lost rt run e human_approval_granted h p = ground arith
apply_event-is_lost rt run e retryable_failure h p = ground arith
apply_event-is_lost rt run e retry_due h p = ground arith
apply_event-is_lost rt run e n h p = absurd (progress_pause rt run e run.state n (ground arith) p)

advance-is_lost :
    (rt : Runtime) (run : Run) (e : Event) {r : Run}
    → is_lost run ≡ true
    → advance_capture_run rt run e ≡ ok r
    → (is_lost r ≡ true) ⊎ (r.state ≡ blocked_closed)
advance-is_lost rt run e h q =
    let (live, b, p, recorded) = advance-eq-ok rt run e q in
    let step : (is_lost (record_event b e.name) ≡ true)
        ⊎ ((record_event b e.name).state ≡ blocked_closed) =
      unfold is_lost record_event in apply_event-is_lost rt run e e.name h p in
    rw recorded step

blocked_is_final :
    (rt : Runtime) (run : Run) (es : List Event) {r : Run}
    → run.state ≡ blocked_closed
    → advance_all rt run es ≡ ok r
    → r.state ≡ blocked_closed
unfolding advance_all advance_capture_run is_terminal
blocked_is_final rt run [] h q = ground arith
blocked_is_final rt run (e ∷ es) h q = ground arith

lost-never-full :
    (rt : Runtime) (run : Run) (es : List Event) {r : Run}
    → is_lost run ≡ true
    → advance_all rt run es ≡ ok r
    → r.state ≢ full_closed
unfolding advance_all
lost-never-full rt run [] h q = unfold is_lost in ground arith
lost-never-full rt run (e ∷ es) h q = λ f.
    let (b, p, rest) = advance_all-cons rt run e es q in
    elim (advance-is_lost rt run e h p) [
      | inl lost ↦ lost-never-full rt b es lost rest f
      | inr closed ↦ cc (blocked_is_final rt b es closed rest)
    ]

pause_not_terminal : (s : State) → is_pause s ≡ true → is_terminal s ≡ false
unfolding is_pause is_terminal
pause_not_terminal s h = ground arith

pub advance_live :
    (rt : Runtime) (run : Run) (e : Event) (n : EventName)
    → is_terminal run.state ≡ false
    → e.name ≡ n
    → advance_capture_run rt run e ≡ (apply_event rt run e n >>= λ b. ok (record_event b n))
unfolding advance_capture_run
advance_live rt run e n live named = ground arith

count_retry-is_lost :
    (run : Run) (n : EventName)
    → is_pause run.state ≡ true
    → run.retry_used < run.retry_budget
    → is_lost (record_event (count_retry run) n) ≡ true
unfolding is_lost record_event count_retry
count_retry-is_lost run n h room = ground arith

-- A retryable failure that arrives while a run waits for a login, an approval or a retry is
-- accepted if the budget allows, and from then on no sequence of events closes the run as full.
pub retryable_failure-paused-lost :
    (rt : Runtime) (run : Run) (e : Event)
    → is_pause run.state ≡ true
    → e.name ≡ EventName.retryable_failure
    → run.retry_used < run.retry_budget
    → (b : Run) × (advance_capture_run rt run e ≡ ok b)
      × ((es : List Event) (r : Run) → advance_all rt b es ≡ ok r → r.state ≢ full_closed)
retryable_failure-paused-lost rt run e h n room = (
  record_event (count_retry run) EventName.retryable_failure,
  advance_live rt run e EventName.retryable_failure (pause_not_terminal run.state h) n
      ∙ unfold apply_event in refl,
  λ es r q. lost-never-full rt _ es (count_retry-is_lost run EventName.retryable_failure h room) q,
)
