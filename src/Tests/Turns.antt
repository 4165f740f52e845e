-- ===== src/Tests/Turns.antt =====
-- A launch and a turn decision at concrete states.
use durable_agent_handoff.Prelude.{
  String, ◌≡◌, refl, false, some, List, [], ◌∷◌, blank, lookup, put, values, any, ok,
}
use durable_agent_handoff.Types.{
  MilestoneKind, ResultStatus, DecisionOutcome, Workflow, Activity, WorkerResult, Attempt, Result,
  State, empty_state,
}
use durable_agent_handoff.Environment.{stable_id}
use durable_agent_handoff.Events.{DomainEvent}
use durable_agent_handoff.Reducer.{apply_domain_event, apply_events}
use durable_agent_handoff.Reducer.Runs.{apply_attempt_prepared}
use durable_agent_handoff.Commands.Prepare.{
  PrepareAttemptInput, prepare_attempt, new_attempt, new_lease, dispatches, check_activity,
  check_authority, check_room,
}
use durable_agent_handoff.Commands.Prepare.Guards.{IsGuarded, IsSole, prepare_attempt-exclusive}
use durable_agent_handoff.Commands.Turn.{
  is_stale, check_decision, limit_turns, continue_turn, DecideTurnInput, decide_turn,
  decided_result, continuation_activity, continuation_message,
}
use durable_agent_handoff.Commands.Turn.Outcomes.{creates_result, IsResultOf, decide_turn-result}
use durable_agent_handoff.Queries.{
  launches_of, turns_of, result_for_activity, attempt_has_exit, worker_result_for_attempt,
  runs_as_goal,
}
use durable_agent_handoff.Queries.Ordered.{
  existing_continuation, fallback_child, ordered_attempts_for_activity, ordered_messages,
  turns_for_node, worker_result_for_activity,
}
use durable_agent_handoff.Runtimes.{runtime_allowed}
use durable_agent_handoff.Tests.Fixtures.{
  test_env, codex, outputs, goal_workflow, activity, attempt_with, milestone_of, session,
  node_named, idle, finished,
}

abbrev pub launch : PrepareAttemptInput
launch = record {
  activity_id = "a1";
  expected_generation = 1;
  runtime = codex;
  command_digest = "c";
  outputs = outputs;
  idempotency_key = "launch-01";
}

abbrev pub launch_events : List DomainEvent × String
launch_events = (
  DomainEvent.attempt_prepared
        (some (new_attempt test_env launch idle activity (node_named "n1" []) 3))
        (some (new_lease test_env launch activity (node_named "n1" []) 3))
      ∷ [],
  "attempt_x",
)

abbrev running : State
running = record idle {
  attempts = ("attempt_x", new_attempt test_env launch idle activity (node_named "n1" []) 3) ∷ [];
  leases = ("lease_x", new_lease test_env launch activity (node_named "n1" []) 3) ∷ [];
}

pub launches : prepare_attempt test_env launch idle 3 ≡ ok launch_events
unfolding prepare_attempt lookup check_activity result_for_activity values empty_state
    worker_result_for_activity ordered_attempts_for_activity fallback_child blank check_authority
    runtime_allowed check_room launches_of turns_of dispatches stable_id ordered_messages
launches = refl

runs : apply_events idle launch_events.0 ≡ ok running
unfolding apply_events apply_domain_event apply_attempt_prepared lookup empty_state put new_attempt
    new_lease stable_id
runs = refl

prepare_attempt-exclusive_example :
    (g : IsGuarded test_env launch idle 3 launch_events) × IsSole test_env launch idle running 3
      launch_events g
prepare_attempt-exclusive_example =
    prepare_attempt-exclusive test_env launch idle running 3 launch_events launches runs

abbrev verdict : DecideTurnInput
verdict = record {
  activity_id = "a1";
  expected_generation = 1;
  attempt_id = "t1";
  decision = record {
    outcome = DecisionOutcome.continue;
    reason = "not yet";
    model = "judge";
    blocker_kind = "";
    question = "";
  };
  idempotency_key = "decide-01";
}

abbrev reported : WorkerResult
reported = record {
  status = ResultStatus.completed;
  summary = "done";
  blocker_kind = "";
  question = "";
}

abbrev turn : Attempt
turn = attempt_with (
    milestone_of MilestoneKind.process_spawned
    ∷ milestone_of MilestoneKind.turn_started
    ∷ milestone_of MilestoneKind.result
    ∷ milestone_of MilestoneKind.exit
    ∷ [])

abbrev verdict_events : List DomainEvent × String
verdict_events = (
  DomainEvent.result_created
        (some (decided_result test_env activity turn reported verdict.decision 8))
      ∷ DomainEvent.activity_queued (
          some (
            continuation_activity test_env verdict finished goal_workflow activity verdict.decision
              8))
      ∷ DomainEvent.message_queued
          (some (continuation_message test_env verdict session verdict.decision 8))
      ∷ [],
  "activity_x",
)

decides : decide_turn test_env verdict finished 8 ≡ ok verdict_events
unfolding decide_turn lookup is_stale result_for_activity values empty_state attempt_has_exit
    worker_result_for_attempt runs_as_goal blank check_decision limit_turns turns_for_node
    worker_result_for_activity ordered_attempts_for_activity continue_turn existing_continuation
    stable_id
decides = refl

decide_turn-result_example :
    (w : Workflow) × (b : Activity) × (a : Attempt) × (r : Result) × (rest : List DomainEvent)
    × (lookup "a1" finished.activities ≡ some b)
    × (lookup "t1" finished.attempts ≡ some a)
    × (lookup b.workflow_id finished.workflows ≡ some w)
    × (verdict_events.0 ≡ DomainEvent.result_created (some r) ∷ rest)
    × (any creates_result rest ≡ false)
    × IsResultOf finished verdict w b a r
decide_turn-result_example = decide_turn-result test_env verdict finished 8 verdict_events decides
