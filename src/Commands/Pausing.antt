-- ===== src/Commands/Pausing.antt =====
-- pauseWorkflowCommand and settlePauseCommand of internal/supervisor/commands.go.
pub mod Fences
use durable_agent_handoff.Prelude.{
  String, Bool, true, false, not, ◌||◌, Option, none, some, List, [], ◌∷◌, ◌++◌, blank, lookup, eqb,
  if◌then◌else◌, is_some, is_none, is_empty, pause_pending, invalid, Fallible, ok, ◌>>=◌, ◌>>◌,
  refuse, or_fail, for_each, join,
}
use durable_agent_handoff.Types.{
  Time, is_zero, PausePhase, is_completed_phase, Activity, Attempt, Pause, Lease, Control, State,
}
use durable_agent_handoff.Environment.{Environment, stable_id}
use durable_agent_handoff.Events.{DomainEvent}
use durable_agent_handoff.Queries.{attempt_has_exit}
use durable_agent_handoff.Queries.Ordered.{ordered_attempts, accepted_control}
use durable_agent_handoff.Commands.{Decision, settle_messages}

pub record PauseWorkflowInput : Type 0 where
  pub workflow_id : String
  pub requested_by : String
  pub idempotency_key : String

pub record SettlePauseInput : Type 0 where
  pub workflow_id : String
  pub idempotency_key : String

abbrev holds_lease : Option Lease → Bool
holds_lease none = false
holds_lease (some l) = is_zero l.released_at

-- The activity of an attempt that holds its lease, has not exited and is of its generation.
unfoldable pub live_activity : State → Attempt → Option Activity
live_activity s a =
    if not (holds_lease (lookup a.lease_id s.leases)) || attempt_has_exit a
    then none
    else elim (lookup a.activity_id s.activities) [
      | none ↦ none
      | some activity ↦
          if eqb a.activity_generation activity.generation then some activity else none
    ]

abbrev pub pause_control : Environment → PauseWorkflowInput → Activity → Attempt → Time → Control
pause_control env i activity a now = record {
  id = stable_id env "control" (join i.workflow_id (join "/pause/" a.id));
  kind = "pause";
  actor = i.requested_by;
  activity_id = activity.id;
  expected_generation = activity.generation;
  expected_attempt_id = a.id;
  accepted = true;
  reason = "";
  applied_at = 0;
  created_at = now;
}

-- What a fenced attempt adds: a control, unless one was accepted before, and its messages.
unfoldable pub fence_events :
    Environment → PauseWorkflowInput → State → Activity → Attempt → Time → List DomainEvent
fence_events env i s activity a now = elim (accepted_control s activity a) [
  | some existing ↦ settle_messages s activity.id a.id false now
  | none ↦
      DomainEvent.control_recorded (some (pause_control env i activity a now))
      ∷ settle_messages s activity.id a.id false now
]

-- The events of the loop, and the attempts that it fences.
unfoldable pub fence_attempts :
    Environment → PauseWorkflowInput → State → Time → List Attempt → List DomainEvent × List String
fence_attempts env i s now [] = ([], [])
fence_attempts env i s now (a ∷ rest) =
    let (events, ids) = fence_attempts env i s now rest in
    elim (live_activity s a) [
      | none ↦ (events, ids)
      | some activity ↦ (fence_events env i s activity a now ++ events, a.id ∷ ids)
    ]

unfoldable pub new_pause : PauseWorkflowInput → List String → Time → Pause
new_pause i ids now = record {
  workflow_id = i.workflow_id;
  phase = if is_empty ids then PausePhase.completed else PausePhase.draining;
  requested_by = i.requested_by;
  fenced_attempt_ids = ids;
  released_lease_ids = [];
  requested_at = now;
  completed_at = if is_empty ids then now else 0;
}

unfoldable pub pause_workflow : Environment → PauseWorkflowInput → State → Time → Decision
unfolding fence_attempts new_pause
pause_workflow env i s now = do
  refuse (is_none (lookup i.workflow_id s.workflows)) (invalid "workflow does not exist")
  refuse (blank i.requested_by) (invalid "pause requires a requesting identity")
  refuse (is_some (lookup i.workflow_id s.pauses)) (invalid "workflow is already paused")
  let fences = fence_attempts env i s now (ordered_attempts s i.workflow_id)
  ok (fences.0 ++ DomainEvent.workflow_paused (some (new_pause i fences.1 now)) ∷ [], i.workflow_id)

-- A fenced attempt has exited, and its lease is released.
unfoldable pub check_drained : State → String → Fallible (Unit {0})
check_drained s attempt_id = do
  a ← or_fail (lookup attempt_id s.attempts) pause_pending
  refuse (not (attempt_has_exit a)) pause_pending
  l ← or_fail (lookup a.lease_id s.leases) pause_pending
  refuse (is_zero l.released_at) pause_pending

unfoldable pub settle_pause : SettlePauseInput → State → Time → Decision
unfolding check_drained
settle_pause i s now = do
  p ← or_fail (lookup i.workflow_id s.pauses) (invalid "workflow is not paused")
  refuse (is_completed_phase p.phase) (invalid "pause is already settled")
  for_each (check_drained s) p.fenced_attempt_ids
  ok (DomainEvent.pause_settled i.workflow_id now ∷ [], i.workflow_id)
