-- ===== src/Tests/Pauses.antt =====
-- Pauses at concrete states.
use durable_agent_handoff.Commands.{settle_messages}
use durable_agent_handoff.Queries.{attempt_has_exit}
use durable_agent_handoff.Prelude.{
  List, String, [], any, blank, keep, lookup, map, none, not, ok, refl, some, values, ◌++◌, ◌↔◌,
  ◌∷◌, ◌≡◌,
}
use durable_agent_handoff.Types.{Pause, State, empty_state, is_completed_phase}
use durable_agent_handoff.Events.{DomainEvent}
use durable_agent_handoff.Commands.Pausing.{
  PauseWorkflowInput, SettlePauseInput, fence_events, live_activity, new_pause, pause_control,
  pause_workflow, settle_pause,
}
use durable_agent_handoff.Commands.Pausing.Fences.{
  IsSettling, is_live, pause_workflow-fences, settle_pause_iff,
}
use durable_agent_handoff.Queries.Ordered.{accepted_control, ordered_attempts, ordered_messages}
use durable_agent_handoff.Tests.Fixtures.{test_env, activity, attempt_with, launched, finished}

abbrev request : PauseWorkflowInput
request = record { workflow_id = "w1"; requested_by = "alice"; idempotency_key = "pause-0001" }

abbrev settlement : SettlePauseInput
settlement = record { workflow_id = "w1"; idempotency_key = "settle-001" }

abbrev pausing_events : List DomainEvent × String
pausing_events = (
  DomainEvent.control_recorded (some (pause_control test_env request activity (attempt_with []) 6))
      ∷ DomainEvent.workflow_paused (some (new_pause request ("t1" ∷ []) 6))
      ∷ [],
  "w1",
)

pauses : pause_workflow test_env request launched 6 ≡ ok pausing_events
unfolding pause_workflow lookup blank empty_state ordered_attempts values live_activity
    attempt_has_exit fence_events accepted_control settle_messages ordered_messages
pauses = refl

pause_workflow-fences_example :
    (before : List DomainEvent) × (p : Pause) × (pausing_events.0
      ≡ before ++ DomainEvent.workflow_paused (some p) ∷ [])
    × (lookup "w1" launched.pauses ≡ none)
    × (p.fenced_attempt_ids
        ≡ map (λ a. a.id) (keep (is_live launched) (ordered_attempts launched "w1")))
    × (is_completed_phase p.phase ≡ not (any (is_live launched) (ordered_attempts launched "w1")))
pause_workflow-fences_example =
    pause_workflow-fences test_env request launched 6 pausing_events pauses

abbrev drained : State
drained = record finished { pauses = ("w1", new_pause request ("t1" ∷ []) 6) ∷ [] }

settle_pause_iff_example :
    (settle_pause settlement drained 9 ≡ ok (DomainEvent.pause_settled "w1" 9 ∷ [], "w1"))
    ↔ IsSettling drained "w1"
settle_pause_iff_example = settle_pause_iff settlement drained 9

settles : settle_pause settlement drained 9 ≡ ok (DomainEvent.pause_settled "w1" 9 ∷ [], "w1")
unfolding settle_pause lookup new_pause attempt_has_exit
settles = refl
