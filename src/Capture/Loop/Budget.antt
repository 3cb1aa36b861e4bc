-- ===== src/Capture/Loop/Budget.antt =====
-- The scan budget: a loop run meets at most as many partial gates as its budget, and the last of
-- them closes it.
use mathlib.Core.List.{map-append}
use discord_context_bridge.Capture.Orchestrator.{
  gate_evaluating, gate_partial, State, EventName, Event, Run, blocked_closed, is_terminal,
  advance_capture_run, progress, apply_event, Checkpoint, transition, follow,
}
use discord_context_bridge.Capture.Orchestrator.Checkpoints.{
  IsConsistent, logged_events, advance-Advanced, advance-IsConsistent, advance-eq-ok,
  Numbered-append, new_capture_run-IsConsistent, visible_logged-append,
}
use discord_context_bridge.Capture.Loop.{
  LoopRun, ScanPass, is_gate_partial, partial_gate, close_scan, advance_capture_loop,
  advance_loop_all, new_capture_loop, true, false, some, is_evaluating, gate_partial, length, ltb,
  String, ℤ, Fields, Option, pos, new_capture_run, start_loop,
}
use discord_context_bridge.Shared.{
  zero, suc, some, ok, true, false, inl, inr, ℕ, ◌≡◌, ◌<◌, ◌≤◌, ◌+◌, ◌⊎◌, arith, List, [], ◌∷◌,
  ◌++◌, Runtime, ok, true, false, if◌then◌else◌, some, inr, ap, inl, refl, length, last-append,
  Bool-cases, ltb, >>=-eq-ok, ◌∙◌, String, ℤ, Fields, Option,
}

abbrev pub count_partial : List EventName → ℕ
count_partial [] = 0
count_partial (n ∷ ns) = (if is_gate_partial n then 1 else 0) + count_partial ns

count_partial-append :
    (ms ns : List EventName) → count_partial (ms ++ ns) ≡ count_partial ms + count_partial ns
count_partial-append [] ns = omega arith
count_partial-append (m ∷ ms) ns = omega (arith, count_partial-append ms ns)

-- The passes used are the partial gates of the log, fewer than the budget while the run is open.
pub record InScanBudget (l : LoopRun) (pass : ScanPass) : Type 0 where
  pub consistent : IsConsistent l.run
  pub given : l.scan_pass ≡ some pass
  pub counted : pass.used ≡ count_partial (logged_events l.run)
  pub bounded :
      (pass.used < pass.budget) ⊎ ((pass.used ≡ pass.budget) × (l.run.state ≡ blocked_closed))

live_below :
    (l : LoopRun) (pass : ScanPass)
    → InScanBudget l pass
    → is_terminal l.run.state ≡ false
    → pass.used < pass.budget
unfolding is_terminal
live_below l pass h live = elim h.bounded [ inl p ↦ p | inr p ↦ absurd (ground arith) ]

-- An event that is no partial gate, or a partial gate within the budget, goes to the orchestrator.
advance_run-InScanBudget :
    (rt : Runtime) (l : LoopRun) (e : Event) (pass next : ScanPass) {r : Run}
    → InScanBudget l pass
    → advance_capture_run rt l.run e ≡ ok r
    → next.used ≡ pass.used + (if is_gate_partial e.name then 1 else 0)
    → next.budget ≡ pass.budget
    → next.used < next.budget
    → InScanBudget (record l { run = r; scan_pass = some next }) next
advance_run-InScanBudget rt l e pass next {r} h p used budget below =
    let d = advance-Advanced rt l.run e p in
    record {
      consistent = advance-IsConsistent rt l.run e h.consistent p;
      given = refl;
      counted = omega (
        arith,
        ap count_partial d.log,
        count_partial-append (logged_events l.run) (e.name ∷ []),
        h.counted,
        used,
      );
      bounded = inl below;
    }

close_scan-InScanBudget :
    (l : LoopRun) (pass next : ScanPass)
    → InScanBudget l pass
    → is_terminal l.run.state ≡ false
    → next.used ≡ pass.used + 1
    → next.used ≡ next.budget
    → InScanBudget (close_scan l next) next
unfolding close_scan
close_scan-InScanBudget l pass next h live used budget = record {
  consistent = record {
    numbered =
        Numbered-append 1 l.run.checkpoints closing_checkpoint h.consistent.numbered (omega arith);
    latest = λ c e. cc (last-append l.run.checkpoints closing_checkpoint, e);
    lane = refl;
    visible =
        ground
          (arith, h.consistent.visible, visible_logged-append l.run.checkpoints closing_checkpoint);
    budget = inr refl;
    used = h.consistent.used;
  };
  given = refl;
  counted = omega (
    arith,
    ap count_partial
        (map-append (λ (c : Checkpoint). c.event) l.run.checkpoints (closing_checkpoint ∷ [])),
    count_partial-append (logged_events l.run) (gate_partial ∷ []),
    h.counted,
    used,
  );
  bounded = inr (budget, refl);
}
  where
    closing_checkpoint : Checkpoint
    closing_checkpoint = record {
      sequence = length l.run.checkpoints + 1;
      event = gate_partial;
      state = blocked_closed;
    }

partial_name : (n : EventName) → is_gate_partial n ≡ true → n ≡ gate_partial
partial_name n h = ground arith

progress_partial :
    (rt : Runtime) (run : Run) (e : Event) (s : State) {r : Run}
    → progress rt run e s gate_partial ≡ ok r
    → is_evaluating s ≡ true
unfolding progress transition follow
progress_partial rt run e gate_evaluating h = refl
progress_partial rt run e s h = cc

apply_partial :
    (rt : Runtime) (run : Run) (e : Event) (n : EventName) {r : Run}
    → is_gate_partial n ≡ true
    → apply_event rt run e n ≡ ok r
    → is_evaluating run.state ≡ true
unfolding apply_event
apply_partial rt run e gate_partial named h = progress_partial rt run e run.state h
apply_partial rt run e n named h = cc

-- The orchestrator takes a partial gate only while it evaluates the gate.
partial-evaluating :
    (rt : Runtime) (run : Run) (e : Event) {r : Run}
    → is_gate_partial e.name ≡ true
    → advance_capture_run rt run e ≡ ok r
    → is_evaluating run.state ≡ true
partial-evaluating rt run e named h =
    let (live, b, p, recorded) = advance-eq-ok rt run e h in apply_partial rt run e e.name named p

evaluating_live : (s : State) → is_evaluating s ≡ true → is_terminal s ≡ false
unfolding is_terminal
evaluating_live s h = ground arith

partial_gate-InScanBudget :
    (rt : Runtime) (l : LoopRun) (e : Event) (pass : ScanPass) (b u : ℕ) {r : LoopRun}
    → is_gate_partial e.name ≡ true
    → InScanBudget l pass
    → b ≡ pass.budget
    → u ≡ pass.used
    → partial_gate rt l e b u ≡ ok r
    → (next : ScanPass) × InScanBudget r next × (next.budget ≡ pass.budget)
unfolding partial_gate
partial_gate-InScanBudget rt l e pass zero u named h eb eu p = cc
partial_gate-InScanBudget rt l e pass (suc n) u {r} named h eb eu p =
    let next : ScanPass = record { budget = suc n; used = u + 1 } in
    elim (Bool-cases (ltb (u + 1) (suc n))) [
      | inl below ↦
          let (b, step, made) =
            >>=-eq-ok (advance_capture_run rt l.run e)
              (λ r. ok (record l { run = r; scan_pass = some next })) (rw below at p) in
          let e' : record l { run = b; scan_pass = some next } ≡ r = cc in
          rw (← e') (
            next,
            advance_run-InScanBudget rt l e pass next h step (rw (named, eu)) eb (ground arith),
            eb,
          )
      | inr reached ↦ elim (Bool-cases (is_evaluating l.run.state)) [
        | inl evaluating ↦
            let e' : close_scan l next ≡ r = unfold close_scan in ground arith in
            let live = evaluating_live l.run.state evaluating in
            rw (← e') (
              next,
              close_scan-InScanBudget l pass next h live (rw eu)
                  (ground (arith, live_below l pass h live)),
              eb,
            )
        | inr other ↦
            let (b, step, made) =
              >>=-eq-ok (advance_capture_run rt l.run e) (λ r. ok (record l { run = r }))
                (rw (reached, other) at p) in
            absurd (cc (partial-evaluating rt l.run e named step))
      ]
    ]

-- Every accepted event of a loop run keeps the passes used equal to the partial gates of the log,
-- and below the budget unless the run is blocked.
pub advance_loop-InScanBudget :
    (rt : Runtime) (l : LoopRun) (e : Event) (pass : ScanPass) {r : LoopRun}
    → InScanBudget l pass
    → advance_capture_loop rt l e ≡ ok r
    → (next : ScanPass) × InScanBudget r next × (next.budget ≡ pass.budget)
unfolding advance_capture_loop
advance_loop-InScanBudget rt l e pass {r} h p = elim (Bool-cases (is_gate_partial e.name)) [
  | inl named ↦
      partial_gate-InScanBudget rt l e pass pass.budget pass.used named h refl refl
        (rw (named, h.given) at p)
  | inr plain ↦
      let (b, step, made) =
        >>=-eq-ok (advance_capture_run rt l.run e) (λ r. ok (record l { run = r }))
          (rw plain at p) in
      let (live, _, _, _) = advance-eq-ok rt l.run e step in
      let e' : record l { run = b; scan_pass = some pass } ≡ r = ground (arith, h.given) in
      rw (← e') (
        pass,
        advance_run-InScanBudget rt l e pass pass h step (rw plain (omega arith)) refl
            (live_below l pass h live),
        refl,
      )
]

advance_loop_all-InScanBudget :
    (rt : Runtime) (l : LoopRun) (es : List Event) (pass : ScanPass) {r : LoopRun}
    → InScanBudget l pass
    → advance_loop_all rt l es ≡ ok r
    → (next : ScanPass) × InScanBudget r next × (next.budget ≡ pass.budget)
unfolding advance_loop_all
advance_loop_all-InScanBudget rt l [] pass {r} h p = let e : l ≡ r = cc in rw (← e) (pass, h, refl)
advance_loop_all-InScanBudget rt l (e ∷ es) pass h p =
    let (b, step, rest) =
      >>=-eq-ok (advance_capture_loop rt l e) (λ b. advance_loop_all rt b es) p in
    let (next, kept, same) = advance_loop-InScanBudget rt l e pass h step in
    let (last, done, same') = advance_loop_all-InScanBudget rt b es next kept rest in
    (last, done, same' ∙ same)

new_capture_loop-InScanBudget :
    (rt : Runtime) (target route watermark : String) (n : ℕ) (retries : ℤ) (context : Fields)
    (attempt : Option String) {l : LoopRun}
    → new_capture_loop rt target route watermark (pos n) retries context attempt ≡ ok l
    → InScanBudget l (record { budget = n; used = 0 })
unfolding new_capture_loop
new_capture_loop-InScanBudget rt target route watermark zero retries context attempt h = cc
new_capture_loop-InScanBudget rt target route watermark (suc n) retries context attempt {l} h =
    let (run, made, e) =
      >>=-eq-ok (new_capture_run rt target route watermark retries attempt)
        (λ run. ok (start_loop rt route context (suc n) run)) h in
    let (start, empty) =
      new_capture_run-IsConsistent rt target route watermark retries attempt made in
    let e' : start_loop rt route context (suc n) run ≡ l = cc in
    rw (← e')
      (record { consistent = start; given = refl; counted = rw empty; bounded = inl (omega arith) })

-- A capture loop with a scan budget of `n`: whatever the events that were accepted, the scan pass
-- record counts the partial gates of the log, there are at most `n` of them, and when there are
-- `n` the run is blocked. The run itself stays consistent.
pub loop-InScanBudget :
    (rt : Runtime) (target route watermark : String) (n : ℕ) (retries : ℤ) (context : Fields)
    (attempt : Option String) (es : List Event) {l r : LoopRun}
    → new_capture_loop rt target route watermark (pos n) retries context attempt ≡ ok l
    → advance_loop_all rt l es ≡ ok r
    → (used : ℕ) × (r.scan_pass ≡ some (record { budget = n; used = used }))
      × (used ≡ count_partial (logged_events r.run))
      × (used ≤ n)
      × (used ≡ n → r.run.state ≡ blocked_closed)
      × IsConsistent r.run
loop-InScanBudget rt target route watermark n retries context attempt es {r = r} new all =
    let start =
      new_capture_loop-InScanBudget rt target route watermark n retries context attempt new in
    let (pass, h, same) = advance_loop_all-InScanBudget rt _ es _ start all in
    (
      pass.used,
      h.given ∙ ground arith,
      h.counted,
      elim h.bounded [ inl p ↦ omega arith | inr p ↦ omega arith ],
      λ e. elim h.bounded [ inl p ↦ absurd (omega arith) | inr p ↦ p.1 ],
      h.consistent,
    )
