-- ===== src/Capture/Loop.antt =====
-- capture/loop.py: the capture loop, which bounds the partial gates of a run, and the receipts of an
-- observed-full capture. A loop run is a run of the orchestrator with the scan passes and the tags.
pub mod Budget
pub mod Receipts
pub mod Claims
pub mod Observed
pub mod Status
mod Tests
use discord_context_bridge.Capture.Orchestrator.{
  State, EventName, gate_partial, Event, Run, RunError, gate_evaluating, blocked_closed, Blocker,
  blocked, new_capture_run, advance_capture_run, full_closed, paused_auth, paused_human_approval,
  retry_wait, scan_pass_budget_exhausted, scan_pass_missing, scan_pass_invalid,
}
use discord_context_bridge.Shared.{
  ℕ, zero, suc, Bool, List, String, Dict, Option, none, some, Fields, Runtime, Result, ℤ, pos,
  negsuc, put, false, [], ◌∷◌, ok, sorted_set, err, if◌then◌else◌, true, str, ◌++◌, lookup, ◌+◌,
  length, str_or_empty, get, ltb, is_true, ◌>>=◌,
}

pub record ScanPass : Type 0 where
  pub budget : ℕ
  pub used : ℕ

pub record LoopRun : Type 0 where
  pub run : Run
  pub scan_pass : Option ScanPass
  pub operational_tags : List String

abbrev scope_tags : Dict String
scope_tags =
    ("dm", "direct-message")
    ∷ ("server_threads", "server-threads-all")
    ∷ ("thread_only", "thread-only")
    ∷ []

abbrev route_tags : Dict String
route_tags =
    ("in_app_browser", "in-app-browser")
    ∷ ("chrome_extension", "chrome-visible")
    ∷ ("rest_backfill", "rest-backfill")
    ∷ ("saved_artifacts", "saved-artifacts")
    ∷ ("discord_desktop_accessibility", "desktop-accessibility")
    ∷ []

abbrev pub one_tag : Option String → List String
one_tag none = []
one_tag (some tag) = tag ∷ []

unfoldable pub derive_operational_tags : Runtime → Fields → List String
derive_operational_tags rt context = sorted_set (
    one_tag (lookup (str_or_empty rt (get "scope" context)) scope_tags)
    ++ one_tag (lookup (str_or_empty rt (get "route" context)) route_tags)
    ++ (if is_true (get "refresh_check" context) then "refresh-check" ∷ [] else [])
    ++ (if is_true (get "observed_full" context) then "observed-full" ∷ [] else []))

-- The loop run of a new run.
abbrev pub start_loop : Runtime → String → Fields → ℕ → Run → LoopRun
start_loop rt route context budget run = record {
  run = run;
  scan_pass = some (record { budget = budget; used = 0 });
  operational_tags = derive_operational_tags rt (put "route" (str route) context);
}

unfoldable pub new_capture_loop :
    Runtime → String → String → String → ℤ → ℤ → Fields → Option String → Result RunError LoopRun
new_capture_loop rt target_key route watermark (pos (suc n)) retry_budget context attempt_id = do
  run ← new_capture_run rt target_key route watermark retry_budget attempt_id
  ok (start_loop rt route context (suc n) run)
new_capture_loop rt target_key route watermark budget retry_budget context attempt_id =
    err scan_pass_invalid

abbrev pub is_gate_partial : EventName → Bool
is_gate_partial gate_partial = true
is_gate_partial _ = false

abbrev pub is_evaluating : State → Bool
is_evaluating gate_evaluating = true
is_evaluating _ = false

-- The partial gate that uses up the budget closes the run.
unfoldable pub close_scan : LoopRun → ScanPass → LoopRun
close_scan l pass = record l {
  run = record l.run {
    state = blocked_closed;
    blocker = some scan_pass_budget_exhausted;
    background_full = blocked;
    checkpoints =
        l.run.checkpoints
        ++ record {
          sequence = length l.run.checkpoints + 1;
          event = gate_partial;
          state = blocked_closed;
        }
          ∷ [];
  };
  scan_pass = some pass;
}

-- A partial gate, with the budget and the passes used before.
unfoldable pub partial_gate : Runtime → LoopRun → Event → ℕ → ℕ → Result RunError LoopRun
partial_gate rt l e zero used = err scan_pass_invalid
partial_gate rt l e (suc n) used =
    let pass : ScanPass = record { budget = suc n; used = used + 1 } in
    if ltb (used + 1) (suc n)
    then (do r ← advance_capture_run rt l.run e; ok (record l { run = r; scan_pass = some pass }))
    else if is_evaluating l.run.state
    then ok (close_scan l pass)
    else do r ← advance_capture_run rt l.run e; ok (record l { run = r })

unfoldable pub advance_capture_loop : Runtime → LoopRun → Event → Result RunError LoopRun
advance_capture_loop rt l e =
    if is_gate_partial e.name
    then (elim l.scan_pass [
      | none ↦ err scan_pass_missing
      | some pass ↦ partial_gate rt l e pass.budget pass.used
    ])
    else do r ← advance_capture_run rt l.run e; ok (record l { run = r })

unfoldable pub advance_loop_all : Runtime → LoopRun → List Event → Result RunError LoopRun
advance_loop_all rt l [] = ok l
advance_loop_all rt l (e ∷ es) = do r ← advance_capture_loop rt l e; advance_loop_all rt r es
