-- ===== src/Tests/Publications.antt =====
-- A publication at a concrete state, and the gates that the finalizer compares.
use durable_agent_handoff.Prelude.{String, ◌≡◌, refl, true, some, List, [], ◌∷◌, lookup, ok}
use durable_agent_handoff.Types.{ResultStatus, DecisionOutcome, Execution, Result, State}
use durable_agent_handoff.Events.{DomainEvent}
use durable_agent_handoff.Reducer.{apply_events}
use durable_agent_handoff.Commands.Finalizer.{
  PrepareFinalizationInput, same_strings, exact_finalizer_checks, new_finalization,
  prepare_finalization,
}
use durable_agent_handoff.Commands.Finalizer.Publication.{IsPublishable, prepare_finalization-taken}
use durable_agent_handoff.Tests.Fixtures.{test_env, goal_workflow, node_named, idle}

abbrev execution : Execution
execution = record {
  id = "x1";
  workflow_id = "w1";
  root_node_id = "n1";
  session_id = "s1";
  first_activity = "a1";
  idempotency_key = "start-0001";
  input_digest = "d1";
  created_at = 1;
}

abbrev result : Result
result = record {
  id = "r1";
  workflow_id = "w1";
  node_id = "n1";
  activity_id = "a1";
  attempt_id = "t1";
  generation = 1;
  status = ResultStatus.completed;
  summary = "done";
  blocker_kind = "";
  question = "";
  decision = DecisionOutcome.accept;
  decided_by = "judge";
  created_at = 8;
}

abbrev done : State
done = record idle {
  executions = ("x1", execution) ∷ [];
  workflows =
      (
        "w1",
        record goal_workflow {
          finalizer = record {
            enabled = true;
            required_checks = "test" ∷ "lint" ∷ [];
            require_human = true;
          };
          nodes = ("n1", node_named "n1" []) ∷ [];
        },
      )
      ∷ [];
  results = ("r1", result) ∷ [];
}

abbrev request : PrepareFinalizationInput
request = record {
  execution_id = "x1";
  repository = "o/r";
  pull_request = "7";
  gates = "test" ∷ "lint" ∷ [];
  method = "";
  human_approved = true;
  head_sha = "abc";
  pr_url = "";
  idempotency_key = "publish-01";
}

abbrev publishing : List DomainEvent × String
publishing = (
  DomainEvent.finalization_prepared
        (some (new_finalization test_env request execution ("lint" ∷ "test" ∷ []) 9))
      ∷ [],
  "finalization_x",
)

publishes : prepare_finalization test_env request done 9 ≡ ok publishing
unfolding prepare_finalization durable_agent_handoff.Prelude.blank lookup exact_finalizer_checks
    durable_agent_handoff.Commands.Finalizer.check_gates durable_agent_handoff.Reducer.Dag.contains
    same_strings durable_agent_handoff.Commands.Start.Starting.unique_strings
    durable_agent_handoff.Reducer.Dag.sort_strings durable_agent_handoff.Prelude.str_ltb
    durable_agent_handoff.Prelude.join durable_agent_handoff.Commands.Finalizer.spaced
    durable_agent_handoff.Commands.Finalizer.project_publication
    durable_agent_handoff.Commands.Finalizer.latest_of_nodes
    durable_agent_handoff.Queries.latest_result_for_node durable_agent_handoff.Prelude.values
    durable_agent_handoff.Environment.stable_id
publishes = refl

prepare_finalization-taken_example :
    IsPublishable test_env request done 9 publishing
    × ((t : State) × (apply_events done publishing.0 ≡ ok t))
unfolding lookup durable_agent_handoff.Types.empty_state
prepare_finalization-taken_example =
    prepare_finalization-taken test_env request done 9 publishing refl refl publishes

-- Printing the lists takes two of them for the same where a name has a space.
confuses : same_strings ("a b" ∷ "c" ∷ []) ("a" ∷ "b c" ∷ []) ≡ true
unfolding same_strings durable_agent_handoff.Prelude.join
    durable_agent_handoff.Commands.Finalizer.spaced durable_agent_handoff.Reducer.Dag.sort_strings
    durable_agent_handoff.Prelude.str_ltb
confuses = refl
