-- ===== src/Capture/Loop/Status.antt =====
-- The status projection of capture/loop.py, for the full-capture side (FDE) and the reader (LCS).
use discord_context_bridge.Capture.Orchestrator.{
  State, Blocker, full_closed, blocked_closed, paused_auth, paused_human_approval, retry_wait,
}
use discord_context_bridge.Capture.Orchestrator.Recovery.{is_pause}
use discord_context_bridge.Capture.Loop.{LoopRun}
use discord_context_bridge.Shared.{Bool, true, false, String, List, Option, ◌≡◌, ◌↔◌, arith}

pub data FdeStatus : Type 0 where
  full blocked paused in_progress : FdeStatus

pub data Decision : Type 0 where
  context_understanding human_review resolve_blocker continue_capture : Decision

pub data LcsStatus : Type 0 where
  passport_pending capture_blocked capture_pending : LcsStatus

pub record StatusProjection : Type 0 where
  pub capture_id : String
  pub state : State
  pub operational_tags : List String
  pub fde_status : FdeStatus
  pub decision : Decision
  pub blocker : Option Blocker
  pub lcs_status : LcsStatus
  pub event_emitted : Bool
  pub passport_ready_next : Bool

abbrev project_state : State → FdeStatus × Decision × LcsStatus
project_state full_closed = (FdeStatus.full, context_understanding, passport_pending)
project_state blocked_closed = (FdeStatus.blocked, human_review, capture_blocked)
project_state paused_auth = (paused, resolve_blocker, capture_pending)
project_state paused_human_approval = (paused, resolve_blocker, capture_pending)
project_state retry_wait = (paused, resolve_blocker, capture_pending)
project_state _ = (in_progress, continue_capture, capture_pending)

abbrev is_passport_pending : LcsStatus → Bool
is_passport_pending passport_pending = true
is_passport_pending _ = false

unfoldable pub build_capture_status_projection : LoopRun → StatusProjection
build_capture_status_projection l =
    let (fde_status, decision, lcs_status) = project_state l.run.state in
    record {
      capture_id = l.run.capture_id;
      state = l.run.state;
      operational_tags = l.operational_tags;
      fde_status = fde_status;
      decision = decision;
      blocker = l.run.blocker;
      lcs_status = lcs_status;
      event_emitted = false;
      passport_ready_next = is_passport_pending lcs_status;
    }

-- The projection says `full`, and only then announces the passport, exactly for a run closed as
-- full; it says `blocked` exactly for a blocked run and `paused` exactly for a pause. It never
-- emits an event itself.
pub projection-state :
    (l : LoopRun)
    → let p = build_capture_status_projection l in
      ((p.fde_status ≡ FdeStatus.full) ↔ (l.run.state ≡ full_closed))
      × ((p.passport_ready_next ≡ true) ↔ (l.run.state ≡ full_closed))
      × ((p.fde_status ≡ FdeStatus.blocked) ↔ (l.run.state ≡ blocked_closed))
      × ((p.fde_status ≡ paused) ↔ (is_pause l.run.state ≡ true))
      × (p.event_emitted ≡ false)
unfolding build_capture_status_projection is_pause
projection-state l = ground arith
