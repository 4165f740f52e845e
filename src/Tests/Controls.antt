-- ===== src/Tests/Controls.antt =====
-- The end of a lease and the request for a control at concrete states.
use durable_agent_handoff.Environment.{stable_id}
use durable_agent_handoff.Commands.{settle_messages}
use durable_agent_handoff.Queries.{result_for_activity}
use durable_agent_handoff.Commands.Milestones.{precedes_last, validate_kind, validate_milestone}
use durable_agent_handoff.Prelude.{
  List, String, [], arith, blank, count, false, lookup, ok, put, refl, some, true, values, ◌++◌,
  ◌∷◌, ◌≡◌, ◌≤◌,
}
use durable_agent_handoff.Types.{Milestone, MilestoneKind, State, empty_state, is_exit}
use durable_agent_handoff.Events.{DomainEvent}
use durable_agent_handoff.Reducer.{apply_domain_event, apply_events}
use durable_agent_handoff.Reducer.Runs.{
  apply_milestone, apply_lease_released, apply_control_recorded,
}
use durable_agent_handoff.Commands.Record.{
  RecordMilestoneInput, is_fenced, record_milestone, result_events, session_events, terminal_events,
}
use durable_agent_handoff.Commands.Record.Releases.{record_milestone-releases}
use durable_agent_handoff.Commands.Controls.{
  RequestControlInput, exact_attempt, new_control, request_control,
}
use durable_agent_handoff.Commands.Controls.Single.{request_control-single}
use durable_agent_handoff.Queries.Ordered.{accepted_control, controls_attempt, ordered_messages}
use durable_agent_handoff.Tests.Fixtures.{
  test_env, activity, attempt_with, milestone_of, lease_until, launched,
}

abbrev turn : List Milestone
turn =
    milestone_of MilestoneKind.process_spawned
    ∷ milestone_of MilestoneKind.turn_started
    ∷ milestone_of MilestoneKind.result
    ∷ []

abbrev reporting : State
reporting = record launched { attempts = ("t1", attempt_with turn) ∷ [] }

abbrev left : State
left = record launched {
  attempts = ("t1", attempt_with (turn ++ milestone_of MilestoneKind.exit ∷ [])) ∷ [];
  leases = ("l1", lease_until 9) ∷ [];
}

abbrev exit_input : RecordMilestoneInput
exit_input = record {
  activity_id = "a1";
  expected_generation = 1;
  attempt_id = "t1";
  lease_id = "l1";
  milestone = milestone_of MilestoneKind.exit;
  idempotency_key = "exit-00001";
}

abbrev exit_events : List DomainEvent × String
exit_events = (
  DomainEvent.milestone_recorded "t1" (milestone_of MilestoneKind.exit)
      ∷ DomainEvent.lease_released "l1" 9
      ∷ [],
  "t1",
)

exits : record_milestone test_env exit_input reporting 9 ≡ ok exit_events
unfolding record_milestone lookup is_fenced empty_state validate_milestone precedes_last
    validate_kind result_events session_events result_for_activity values terminal_events
    settle_messages ordered_messages
exits = refl

leaves : apply_events reporting exit_events.0 ≡ ok left
unfolding apply_events apply_domain_event apply_milestone lookup apply_lease_released put
    empty_state
leaves = refl

record_milestone-releases_example :
    ((lease_until 0).released_at ≡ 0)
    × (is_exit MilestoneKind.exit ≡ true
        → lookup "l1" left.leases ≡ some (record (lease_until 0) { released_at = 9 }))
    × (is_exit MilestoneKind.exit ≡ false → left.leases ≡ reporting.leases)
unfolding lookup
record_milestone-releases_example =
    record_milestone-releases test_env exit_input reporting left 9 exit_events (lease_until 0) refl
      refl exits leaves

abbrev stop_input : RequestControlInput
stop_input = record {
  activity_id = "a1";
  expected_generation = 1;
  expected_attempt_id = "t1";
  kind = "stop";
  actor = "alice";
  idempotency_key = "stop-00001";
}

abbrev stopping : State
stopping = record launched {
  controls = ("control_x", new_control test_env stop_input launched 9) ∷ [];
}

abbrev stop_events : List DomainEvent × String
stop_events = (
  DomainEvent.control_recorded (some (new_control test_env stop_input launched 9)) ∷ [],
  "control_x",
)

stops : request_control test_env stop_input launched 9 ≡ ok stop_events
unfolding request_control blank exact_attempt lookup accepted_control values empty_state stable_id
stops = refl

records : apply_events launched stop_events.0 ≡ ok stopping
unfolding apply_events apply_domain_event apply_control_recorded lookup empty_state put new_control
    stable_id
records = refl

request_control-single_example :
    count (controls_attempt activity (attempt_with [])) (values stopping.controls) ≤ 1
unfolding lookup values empty_state
request_control-single_example =
    request_control-single test_env stop_input launched stopping 9 stop_events activity
      (attempt_with []) refl refl (omega arith) stops records
