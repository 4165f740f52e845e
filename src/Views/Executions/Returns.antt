-- ===== src/Views/Executions/Returns.antt =====
-- The view of an execution is found, with enough fuel, in a state whose references are kept.
use durable_agent_handoff.Prelude.{ℕ, String, ◌≡◌, true, some, lookup, is_some, All}
use durable_agent_handoff.Types.{Execution, Workflow, Activity, State}
use durable_agent_handoff.Queries.Ordered.{fallback_child}
use durable_agent_handoff.Views.Activities.Chains.{IsRanked}

-- What the view of an execution refers to: the execution, its workflow under its own identity, the
-- workflow's nodes, and fallback activities that stay in their workflow and rise by a rank.
pub record IsComplete (s : State) (rank : String → ℕ) (bound : ℕ) (execution_id : String)
    : Type 0 where
  pub execution : Execution
  pub workflow : Workflow
  pub found : lookup execution_id s.executions ≡ some execution
  pub workflow_found : lookup execution.workflow_id s.workflows ≡ some workflow
  pub named : workflow.id ≡ execution.workflow_id
  pub nodes : All (λ id. is_some (lookup id workflow.nodes) ≡ true) workflow.order
  pub ranked : IsRanked s rank bound
  pub stays : (a b : Activity) → fallback_child s a.id ≡ some b → b.workflow_id ≡ a.workflow_id
