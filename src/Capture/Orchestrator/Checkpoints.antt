-- ===== src/Capture/Orchestrator/Checkpoints.antt =====
-- What every accepted event keeps: the identity of the run, the numbered checkpoint log, the
-- agreement of the log and of the lanes with the state, and the retry budget.
use mathlib.Core.List.{append-nil, append_assoc, map-append}
use discord_context_bridge.Shared.{
  if◌then◌else◌, map, ℕ, ◌+◌, ◌≤◌, ◌≡◌, refl, sym, ◌∙◌, ◌⊎◌, inl, inr, Bool, true, false, Option,
  some, List, [], ◌∷◌, ◌++◌, arith, Result, ok, err, ◌>>=◌, >>=-eq-ok, length, last, last-append,
  Value, String, Runtime, ℤ, pos, negsuc, Bool-cases, ◌||◌,
}
use discord_context_bridge.Capture.Orchestrator.{
  fresh_run, State, EventName, Event, Checkpoint, Run, RunError, Lane, received, full_closed,
  blocked_closed, gate_evaluating, route_ready, gate_full, gate_blocked, auth_required,
  human_approval_required, auth_resolved, human_approval_granted, retryable_failure, retry_due,
  running, full, blocked, transition, is_terminal, follow, close_full, close_blocked, progress,
  apply_event, background_lane, record_event, advance_capture_run, advance_all, new_capture_run,
  visible_snapshot_saved, saved, pending, visible_lane,
}

-- What no event changes.
pub record SameCapture (a b : Run) : Type 0 where
  pub capture_id : b.capture_id ≡ a.capture_id
  pub idempotency_key : b.idempotency_key ≡ a.idempotency_key
  pub target_digest : b.target_digest ≡ a.target_digest
  pub upper_watermark_digest : b.upper_watermark_digest ≡ a.upper_watermark_digest
  pub route : b.route ≡ a.route
  pub retry_budget : b.retry_budget ≡ a.retry_budget
  pub capture_identity : b.capture_identity ≡ a.capture_identity

-- The retries used are within the budget, or the run has been blocked by the one that was not.
abbrev pub InBudget : Run → Type 0
InBudget r = (r.retry_used ≤ r.retry_budget) ⊎ (r.state ≡ blocked_closed)

abbrev pub LaneFits : State → Lane → Type 0
LaneFits full_closed lane = lane ≡ full
LaneFits blocked_closed lane = lane ≡ blocked
LaneFits _ lane = lane ≡ running

record Applied (a b : Run) : Type 0 where
  pub same : SameCapture a b
  checkpoints : b.checkpoints ≡ a.checkpoints
  visible : b.immediate_visible ≡ a.immediate_visible
  lane : a.background_full ≡ running → (b.background_full ≡ running) ⊎ (b.state ≡ blocked_closed)
  budget : a.retry_used ≤ a.retry_budget → InBudget b
  used : b.retry_used ≤ a.retry_used + 1

follow-Applied : (run : Run) (o : Option State) {r : Run} → follow run o ≡ ok r → Applied run r
unfolding follow
follow-Applied run o h = ground arith

close_full-Applied :
    (rt : Runtime) (run : Run) (e : Event) {r : Run} → close_full rt run e ≡ ok r → Applied run r
unfolding close_full
close_full-Applied rt run e h = ground arith

close_blocked-Applied :
    (rt : Runtime) (run : Run) (e : Event) {r : Run} → close_blocked rt run e ≡ ok r → Applied run r
unfolding close_blocked
close_blocked-Applied rt run e h = ground arith

progress-Applied :
    (rt : Runtime) (run : Run) (e : Event) (s : State) (n : EventName) {r : Run}
    → progress rt run e s n ≡ ok r
    → Applied run r
unfolding progress
progress-Applied rt run e received route_ready h = ground arith
progress-Applied rt run e gate_evaluating gate_full h = close_full-Applied rt run e h
progress-Applied rt run e gate_evaluating gate_blocked h = close_blocked-Applied rt run e h
progress-Applied rt run e s n h = follow-Applied run (transition s n) h

apply_event-Applied :
    (rt : Runtime) (run : Run) (e : Event) (n : EventName) {r : Run}
    → apply_event rt run e n ≡ ok r
    → Applied run r
unfolding apply_event
apply_event-Applied rt run e auth_required h = ground arith
apply_event-Applied rt run e human_approval_required h = ground arith
apply_event-Applied rt run e auth_resolved h = ground arith
apply_event-Applied rt run e human_approval_granted h = ground arith
apply_event-Applied rt run e retryable_failure h = ground arith
apply_event-Applied rt run e retry_due h = ground arith
apply_event-Applied rt run e n h = progress-Applied rt run e run.state n h

abbrev pub Numbered : ℕ → List Checkpoint → Type 0
Numbered n [] = Unit
Numbered n (c ∷ cs) = (c.sequence ≡ n) × Numbered (n + 1) cs

pub Numbered-append :
    (n : ℕ) (cs : List Checkpoint) (c : Checkpoint)
    → Numbered n cs
    → c.sequence ≡ n + length cs
    → Numbered n (cs ++ c ∷ [])
Numbered-append n [] c h e = (omega arith, tt)
Numbered-append n (b ∷ cs) c h e = (h.0, Numbered-append (n + 1) cs c h.1 (omega arith))

-- The event is the one that saves the visible snapshot.
abbrev pub saves_visible : EventName → Bool
saves_visible visible_snapshot_saved = true
saves_visible _ = false

-- The log has the event that saves the visible snapshot.
abbrev pub visible_logged : List Checkpoint → Bool
visible_logged [] = false
visible_logged (c ∷ cs) = saves_visible c.event || visible_logged cs

-- The log is numbered from 1 and ends in the state of the run, the background lane and the retries
-- agree with the state, and the visible lane is saved if the log has the event that saves it, and
-- pending otherwise.
pub record IsConsistent (r : Run) : Type 0 where
  pub numbered : Numbered 1 r.checkpoints
  pub latest : (c : Checkpoint) → last r.checkpoints ≡ some c → c.state ≡ r.state
  pub lane : LaneFits r.state r.background_full
  pub visible : r.immediate_visible ≡ (if visible_logged r.checkpoints then saved else pending)
  pub budget : InBudget r
  pub used : r.retry_used ≤ r.retry_budget + 1

running_lane : (s : State) (l : Lane) → is_terminal s ≡ false → LaneFits s l → l ≡ running
unfolding is_terminal
running_lane full_closed l h f = cc
running_lane blocked_closed l h f = cc
running_lane s l h f = f

not_blocked : (s : State) → is_terminal s ≡ false → s ≡ blocked_closed → ⊥
unfolding is_terminal
not_blocked s h e = ground arith

lane_recorded :
    (s : State) (l : Lane) → (l ≡ running) ⊎ (s ≡ blocked_closed) → LaneFits s (background_lane s l)
lane_recorded full_closed l h = refl
lane_recorded blocked_closed l h = refl
lane_recorded s l (inl e) = e
lane_recorded s l (inr e) = cc

pub within : (a : Run) → InBudget a → is_terminal a.state ≡ false → a.retry_used ≤ a.retry_budget
within a (inl p) live = p
within a (inr e) live = absurd (not_blocked a.state live e)

abbrev logged : Run → EventName → Checkpoint
logged b n = record { sequence = length b.checkpoints + 1; event = n; state = b.state }

pub visible_logged-append :
    (cs : List Checkpoint) (c : Checkpoint)
    → visible_logged (cs ++ c ∷ []) ≡ (visible_logged cs || saves_visible c.event)
visible_logged-append [] c = ground arith
visible_logged-append (b ∷ cs) c = ground (arith, visible_logged-append cs c)

visible_lane-saves :
    (n : EventName) (lane : Lane) → visible_lane n lane ≡ (if saves_visible n then saved else lane)
visible_lane-saves visible_snapshot_saved lane = refl
visible_lane-saves n lane = refl

record_event-IsConsistent :
    (a b : Run) (n : EventName)
    → IsConsistent a
    → is_terminal a.state ≡ false
    → Applied a b
    → IsConsistent (record_event b n)
unfolding record_event
record_event-IsConsistent a b n h live d = record {
  numbered =
      Numbered-append 1 b.checkpoints (logged b n) (rw d.checkpoints h.numbered) (omega arith);
  latest = λ c e. cc (last-append b.checkpoints (logged b n), e);
  lane =
      lane_recorded b.state b.background_full
        (d.lane (running_lane a.state a.background_full live h.lane));
  visible = ground (
    arith,
    h.visible,
    d.visible,
    d.checkpoints,
    visible_lane-saves n b.immediate_visible,
    visible_logged-append b.checkpoints (logged b n),
  );
  budget = d.budget (within a h.budget live);
  used = omega (arith, within a h.budget live, d.used, d.same.retry_budget);
}

-- An accepted event met a run that was not terminal, and was applied before it was recorded.
pub advance-eq-ok :
    (rt : Runtime) (run : Run) (e : Event) {r : Run}
    → advance_capture_run rt run e ≡ ok r
    → (is_terminal run.state ≡ false)
      × (b : Run) × (apply_event rt run e e.name ≡ ok b)
      × (r ≡ record_event b e.name)
unfolding advance_capture_run
advance-eq-ok rt run e h = elim (Bool-cases (is_terminal run.state)) [
  | inl t ↦ absurd (ground arith)
  | inr live ↦
      let (b, p, q) =
        >>=-eq-ok (apply_event rt run e e.name) (λ r. ok (record_event r e.name)) (rw live at h) in
      (live, b, p, cc)
]

-- Every accepted event keeps the log, the lanes and the retries of a run consistent.
pub advance-IsConsistent :
    (rt : Runtime) (run : Run) (e : Event) {r : Run}
    → IsConsistent run
    → advance_capture_run rt run e ≡ ok r
    → IsConsistent r
advance-IsConsistent rt run e c h =
    let (live, b, p, q) = advance-eq-ok rt run e h in
    rw q (record_event-IsConsistent run b e.name c live (apply_event-Applied rt run e e.name p))

abbrev pub logged_events : Run → List EventName
logged_events r = map (λ c. c.event) r.checkpoints

-- One accepted event: what it keeps, and that the log has one more entry, for that event.
pub record Advanced (a b : Run) (names : List EventName) : Type 0 where
  pub same : SameCapture a b
  pub log : logged_events b ≡ logged_events a ++ names

pub advance-Advanced :
    (rt : Runtime) (run : Run) (e : Event) {r : Run}
    → advance_capture_run rt run e ≡ ok r
    → Advanced run r (e.name ∷ [])
unfolding record_event
advance-Advanced rt run e h =
    let (live, b, p, q) = advance-eq-ok rt run e h in
    let d = apply_event-Applied rt run e e.name p in
    let s = d.same in
    rw q (record {
      same = record {
        capture_id = s.capture_id;
        idempotency_key = s.idempotency_key;
        target_digest = s.target_digest;
        upper_watermark_digest = s.upper_watermark_digest;
        route = s.route;
        retry_budget = s.retry_budget;
        capture_identity = s.capture_identity;
      };
      log = rw d.checkpoints (map-append _ run.checkpoints _);
    })

SameCapture-trans : {a b c : Run} → SameCapture a b → SameCapture b c → SameCapture a c
SameCapture-trans s t = record {
  capture_id = t.capture_id ∙ s.capture_id;
  idempotency_key = t.idempotency_key ∙ s.idempotency_key;
  target_digest = t.target_digest ∙ s.target_digest;
  upper_watermark_digest = t.upper_watermark_digest ∙ s.upper_watermark_digest;
  route = t.route ∙ s.route;
  retry_budget = t.retry_budget ∙ s.retry_budget;
  capture_identity = t.capture_identity ∙ s.capture_identity;
}

SameCapture-refl : (a : Run) → SameCapture a a
SameCapture-refl a = record {
  capture_id = refl;
  idempotency_key = refl;
  target_digest = refl;
  upper_watermark_digest = refl;
  route = refl;
  retry_budget = refl;
  capture_identity = refl;
}

pub advance_all-cons :
    (rt : Runtime) (run : Run) (e : Event) (es : List Event) {r : Run}
    → advance_all rt run (e ∷ es) ≡ ok r
    → (b : Run) × (advance_capture_run rt run e ≡ ok b) × (advance_all rt b es ≡ ok r)
unfolding advance_all
advance_all-cons rt run e es h =
    >>=-eq-ok (advance_capture_run rt run e) (λ b. advance_all rt b es) h

advance_all-Advanced :
    (rt : Runtime) (run : Run) (es : List Event) {r : Run}
    → IsConsistent run
    → advance_all rt run es ≡ ok r
    → IsConsistent r × Advanced run r (map (λ e. e.name) es)
unfolding advance_all
advance_all-Advanced rt run [] {r} c h =
    let e : run ≡ r = cc in
    rw (← e) (c, record { same = SameCapture-refl run; log = sym (append-nil (logged_events run)) })
advance_all-Advanced rt run (e ∷ es) {r} c h =
    let (b, p, q) = advance_all-cons rt run e es h in
    let one = advance-Advanced rt run e p in
    let (done, more) = advance_all-Advanced rt b es (advance-IsConsistent rt run e c p) q in
    (
      done,
      record {
        same = SameCapture-trans one.same more.same;
        log = more.log ∙ rw one.log (append_assoc (logged_events run) (e.name ∷ []) _);
      },
    )

fresh_run-IsConsistent :
    (rt : Runtime) (target route watermark : String) (budget : ℕ) (i : String × Option Value)
    → IsConsistent (fresh_run rt target route watermark budget i)
unfolding fresh_run
fresh_run-IsConsistent rt target route watermark budget i = record {
  numbered = tt;
  latest = λ c e. cc;
  lane = refl;
  visible = refl;
  budget = inl (omega arith);
  used = omega arith;
}

guarded-eq-ok :
    (test : Bool) (m : Result RunError (String × Option Value)) (f : String × Option Value → Run)
    (x : RunError) {run : Run}
    → (if test then (m >>= λ i. ok (f i)) else err x) ≡ ok run
    → (i : String × Option Value) × (run ≡ f i)
guarded-eq-ok true (ok i) f x h = (i, cc)
guarded-eq-ok true (err e) f x h = cc
guarded-eq-ok false m f x h = cc

-- A new run comes of `fresh_run`.
pub new_capture_run-eq-ok :
    (rt : Runtime) (target route watermark : String) (budget : ℤ) (attempt : Option String)
    {run : Run}
    → new_capture_run rt target route watermark budget attempt ≡ ok run
    → (n : ℕ) × (i : String × Option Value) × (run ≡ fresh_run rt target route watermark n i)
unfolding new_capture_run
new_capture_run-eq-ok rt target route watermark (negsuc n) attempt h = ground arith
new_capture_run-eq-ok rt target route watermark (pos n) attempt h =
    let (i, e) = guarded-eq-ok _ _ _ _ h in (n, i, e)

pub new_capture_run-IsConsistent :
    (rt : Runtime) (target route watermark : String) (budget : ℤ) (attempt : Option String)
    {run : Run}
    → new_capture_run rt target route watermark budget attempt ≡ ok run
    → IsConsistent run × (run.checkpoints ≡ [])
new_capture_run-IsConsistent rt target route watermark budget attempt h =
    let (n, i, e) = new_capture_run-eq-ok rt target route watermark budget attempt h in
    rw e (fresh_run-IsConsistent rt target route watermark n i, unfold fresh_run in refl)

-- Whatever events are accepted, the checkpoint log names them in order, is numbered and ends in
-- the state of the run; the visible lane is saved exactly if the event that saves it was accepted,
-- and otherwise pending; the background lane and the retries agree with the state; and the
-- identity of the capture never changes.
pub capture-IsConsistent :
    (rt : Runtime) (target route watermark : String) (budget : ℤ) (attempt : Option String)
    (es : List Event) {run r : Run}
    → new_capture_run rt target route watermark budget attempt ≡ ok run
    → advance_all rt run es ≡ ok r
    → IsConsistent r × SameCapture run r × (logged_events r ≡ map (λ e. e.name) es)
capture-IsConsistent rt target route watermark budget attempt es {run} {r} new all =
    let (start, empty) =
      new_capture_run-IsConsistent rt target route watermark budget attempt new in
    let (done, d) = advance_all-Advanced rt run es start all in (done, d.same, rw empty at d.log)
