-- ===== src/Views/Executions/Opened.antt =====
-- What ProjectExecution has read when it returns a view.
use durable_agent_handoff.Prelude.{
  ℕ, String, ◌≡◌, refl, subst, ◌&&◌, Option, none, some, [], arith, lookup, is_none, Error,
  not_exist, invalid, ok, or_fail, >>=-eq-ok,
}
use durable_agent_handoff.Types.{Time, Execution, Workflow, State}
use durable_agent_handoff.Queries.Ordered.{ordered_activities, ordered_attempts}
use durable_agent_handoff.Views.Executions.{
  ExecutionView, execution_view, project_activities, project_attempts, project_execution,
}
use durable_agent_handoff.Views.Executions.Nodes.{project_nodes}
use durable_agent_handoff.Views.Executions.Status.{execution_status}
use durable_agent_handoff.Views.Executions.Summary.{execution_summary}

pub record IsProjected (s : State) (execution_id : String) (v : ExecutionView) : Type 0 where
  pub execution : Execution
  pub workflow : Workflow
  pub found : lookup execution_id s.executions ≡ some execution
  pub of_workflow : v.workflow_id ≡ workflow.id
  pub nodes : project_nodes s workflow v.activities workflow.order ≡ ok v.nodes
  pub active :
      v.active
      ≡ (is_none (lookup v.workflow_id s.pauses) && (execution_status v.nodes v.activities).1)
  pub updated_at : v.updated_at ≡ (execution_summary s v.workflow_id execution.created_at).1

pub open_execution :
    (fuel : ℕ) (s : State) (execution_id : String) (as_of : Time) (v : ExecutionView)
    → project_execution fuel s execution_id as_of ≡ ok v
    → IsProjected s execution_id v
unfolding project_execution
open_execution fuel s execution_id as_of v h =
    let (e, found, r₀) = >>=-eq-ok (or_fail (lookup execution_id s.executions) not_exist) _ h in
    let (w, _, r₁) =
      >>=-eq-ok
        (or_fail (lookup e.workflow_id s.workflows) (invalid "execution workflow is absent")) _
        r₀ in
    let (activities, _, r₂) =
      >>=-eq-ok (project_activities fuel s as_of (ordered_activities s w.id)) _ r₁ in
    let (attempts, _, r₃) = >>=-eq-ok (project_attempts s [] (ordered_attempts s w.id)) _ r₂ in
    let (nodes, projected, r₄) = >>=-eq-ok (project_nodes s w activities w.order) _ r₃ in
    let same : execution_view s e w activities attempts nodes as_of ≡ v = cc in
    subst (IsProjected s execution_id) same (record {
      execution = e;
      workflow = w;
      found = or_fail-found (lookup execution_id s.executions) not_exist found;
      of_workflow = refl;
      nodes = projected;
      active = ground arith;
      updated_at = refl;
    })
  where
    or_fail-found :
        {A : Type 0} (o : Option A) (x : Error) {a : A} → or_fail o x ≡ ok a → o ≡ some a
    or_fail-found none x h = cc
    or_fail-found (some b) x h = cc
