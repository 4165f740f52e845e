-- ===== src/Views/Attempts.antt =====
-- projectAttempt of internal/supervisor/projection.go: a fold over the attempt's milestones.
pub mod Health
use durable_agent_handoff.Prelude.{
  ℕ, ◌-◌, String, Bool, true, false, ◌&&◌, ◌||◌, Option, none, some, List, [], ◌∷◌, ◌==◌, blank,
  leb, if◌then◌else◌, is_none, is_empty, ℤ, pos, negsuc,
}
use durable_agent_handoff.Types.{
  Time, is_zero, MilestoneKind, ResultStatus, ProcessIdentity, Exit, Milestone, Attempt, Result,
  State,
}
use durable_agent_handoff.Queries.{result_for_activity}

pub data ProcessHealth : Type 0 where
  not_launched starting running exited : ProcessHealth

-- Durations may be negative.
pub record Overhead : Type 0 where
  pub prepare_to_spawn : ℤ
  pub spawn_to_turn : ℤ
  pub turn_to_progress : ℤ

pub record AttemptView : Type 0 where
  pub id : String
  pub activity_id : String
  pub activity_generation : ℕ
  pub pid : ℤ
  pub health : ProcessHealth
  pub turn_started : Bool
  pub task_attempt : ℕ
  pub meaningful_progress : String
  pub provider_unavailable : Bool
  pub terminal_reason : String
  pub result_status : Option ResultStatus
  pub overhead : Overhead

-- The view so far, and the times at which the process was spawned, the turn started and progress was
-- first made.
pub record Reading : Type 0 where
  pub view : AttemptView
  pub spawned : Time
  pub turn : Time
  pub progress : Time

-- strings.TrimSpace(milestone.Exit.Error) != ""
abbrev exit_reason : String → Option Exit → String
exit_reason reason none = reason
exit_reason reason (some x) = if blank x.error then reason else x.error

abbrev pub read_kind : MilestoneKind → Reading → Milestone → Reading
read_kind MilestoneKind.process_spawned r m = record r { spawned = m.at }
read_kind MilestoneKind.turn_started r m = record r {
  view = record r.view { turn_started = true; health = ProcessHealth.running };
  turn = m.at;
}
read_kind MilestoneKind.meaningful_progress r m = record r {
  view = record r.view { meaningful_progress = m.progress };
  progress = if is_zero r.progress then m.at else r.progress;
}
read_kind MilestoneKind.provider_unavailable r m = record r {
  view = record r.view {
    provider_unavailable = true;
    health = ProcessHealth.exited;
    terminal_reason = m.failure;
  };
}
read_kind MilestoneKind.adapter_start_failed r m = record r {
  view = record r.view { health = ProcessHealth.exited; terminal_reason = m.failure };
}
read_kind MilestoneKind.exit r m = record r {
  view = record r.view {
    health = ProcessHealth.exited;
    terminal_reason = exit_reason r.view.terminal_reason m.exit;
  };
}
read_kind MilestoneKind.session_bound r m = r
read_kind MilestoneKind.effect_started r m = r
read_kind MilestoneKind.result r m = r
read_kind (MilestoneKind.unknown_kind k) r m = r

unfoldable pub read_milestones : Reading → List Milestone → Reading
read_milestones r [] = r
read_milestones r (m ∷ ms) = read_milestones (read_kind m.kind r m) ms

-- t.Sub(u), without time.Duration's limits
abbrev elapsed : Time → Time → ℤ
elapsed t u = if leb u t then pos (t - u) else negsuc (u - t - 1)

abbrev pub pid_of : Option ProcessIdentity → ℤ
pid_of none = pos 0
pid_of (some p) = p.pid

abbrev pub first_reading : Attempt → Reading
first_reading a = record {
  view = record {
    id = a.id;
    activity_id = a.activity_id;
    activity_generation = a.activity_generation;
    pid = pid_of a.process;
    health = ProcessHealth.starting;
    turn_started = false;
    task_attempt = 0;
    meaningful_progress = "";
    provider_unavailable = false;
    terminal_reason = "";
    result_status = none;
    overhead = record { prepare_to_spawn = pos 0; spawn_to_turn = pos 0; turn_to_progress = pos 0 };
  };
  spawned = 0;
  turn = 0;
  progress = 0;
}

abbrev status_of_own : Attempt → Option Result → Option ResultStatus
status_of_own a none = none
status_of_own a (some r) = if r.attempt_id == a.id then some r.status else none

abbrev pub overhead_of : Attempt → Reading → Overhead
overhead_of a r = record {
  prepare_to_spawn = if is_zero r.spawned then pos 0 else elapsed r.spawned a.created_at;
  spawn_to_turn = if is_zero r.spawned || is_zero r.turn then pos 0 else elapsed r.turn r.spawned;
  turn_to_progress =
      if is_zero r.turn || is_zero r.progress then pos 0 else elapsed r.progress r.turn;
}

unfoldable pub project_attempt : State → Attempt → AttemptView
project_attempt s a =
    let r = read_milestones (first_reading a) a.milestones in
    record r.view {
      health =
          if is_none a.process && is_empty a.milestones
          then ProcessHealth.starting
          else r.view.health;
      result_status = status_of_own a (result_for_activity s a.activity_id);
      overhead = overhead_of a r;
    }
