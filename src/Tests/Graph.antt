-- ===== src/Tests/Graph.antt =====
-- The graph, the writer leases and the life of an attempt at concrete states.
use durable_agent_handoff.Paths.{within_root}
use durable_agent_handoff.Prelude.{
  String, ◌≡◌, refl, ◌↔◌, some, [], ◌∷◌, blank, str_ltb, lookup, values, invalid, ok, err,
}
use durable_agent_handoff.Types.{MilestoneKind, Attempt, State, empty_state}
use durable_agent_handoff.Reducer.Dag.{validate_dag}
use durable_agent_handoff.Reducer.Dag.Order.{IsClosed, IsAcyclic}
use durable_agent_handoff.Reducer.Dag.Complete.{validate_dag_iff}
use durable_agent_handoff.Reducer.Validate.{
  validate_activity, validate_attempt, validate_lease, validate_leases, validate_state,
  validate_workflow,
}
use durable_agent_handoff.Reducer.Validate.Leases.{validate_state-exclusive}
use durable_agent_handoff.Reducer.Runs.{apply_milestone}
use durable_agent_handoff.Commands.Milestones.{precedes_last, validate_kind, validate_milestone}
use durable_agent_handoff.Commands.Milestones.Machine.{Phase, run}
use durable_agent_handoff.Commands.Milestones.Lifecycle.{IsLifecycle, recorded-IsLifecycle}
use durable_agent_handoff.Tests.Fixtures.{
  test_env, node_named, goal_workflow, activity, attempt_with, milestone_of, lease_until, launched,
}

validate_dag_iff_example :
    (validate_dag goal_workflow ≡ ok tt)
    ↔ (IsClosed goal_workflow.nodes × IsAcyclic goal_workflow.nodes)
validate_dag_iff_example = validate_dag_iff goal_workflow

accepts : validate_dag goal_workflow ≡ ok tt
unfolding validate_dag str_ltb lookup
accepts = refl

-- Two nodes that depend on each other
refuses :
    validate_dag (record goal_workflow {
      nodes = ("n1", node_named "n1" ("n2" ∷ [])) ∷ ("n2", node_named "n2" ("n1" ∷ [])) ∷ [];
    })
    ≡ err (invalid "dependency cycle")
unfolding validate_dag str_ltb lookup
refuses = refl

validate_state-exclusive_example : ◌≡◌ {A = String} "l1" "l1"
unfolding validate_state validate_leases validate_lease validate_activity validate_attempt lookup
    empty_state validate_workflow validate_dag str_ltb values within_root
validate_state-exclusive_example =
    validate_state-exclusive test_env launched "l1" "l1" (lease_until 0) (lease_until 0) refl refl
      refl refl refl refl refl refl

fresh_IsLifecycle : IsLifecycle (attempt_with [])
unfolding run
fresh_IsLifecycle = record { phase = Phase.starting; ran = refl; spawned = λ h. h; ordered = tt }

recorded-IsLifecycle_example :
    (t : State) × (b : Attempt) × (apply_milestone launched "t1"
        (milestone_of MilestoneKind.process_spawned)
      ≡ ok t)
    × (lookup "t1" t.attempts ≡ some b)
    × IsLifecycle b
unfolding lookup validate_milestone precedes_last validate_kind blank
recorded-IsLifecycle_example =
    recorded-IsLifecycle launched "t1" (attempt_with []) activity
      (milestone_of MilestoneKind.process_spawned) refl refl fresh_IsLifecycle refl
