-- ===== src/Views/Executions/Running.antt =====
-- When the view of an execution shows a node as running.
use durable_agent_handoff.Prelude.{
  ℕ, String, ◌≡◌, refl, ◌∙◌, subst, inl, inr, Bool, true, false, ◌&&◌, ◌||◌, List, [], ◌∷◌, arith,
  ◌==◌, lookup, if◌then◌else◌, Bool-cases, Option-cases, any, All, panics, ok, or_fail, >>=-eq-ok,
}
use durable_agent_handoff.Types.{Time, is_zero, Node, Workflow, State}
use durable_agent_handoff.Queries.{latest_result_for_node}
use durable_agent_handoff.Views.Activities.{ActivityStatus, ActivityView}
use durable_agent_handoff.Views.Executions.{ExecutionView, project_execution}
use durable_agent_handoff.Views.Executions.Opened.{open_execution}
use durable_agent_handoff.Views.Executions.Nodes.{
  NodeStatus, NodeView, bind_results, is_running, is_busy, is_in_progress, raise_status, raise_by,
  of_node, project_node, project_nodes,
}

abbrev pub runs : ActivityStatus → Bool
runs ActivityStatus.running = true
runs _ = false

kept-running :
    (busy : Bool) (status other : NodeStatus)
    → (is_running status ≡ true → busy ≡ true)
    → is_running other ≡ false
    → is_running (if busy then status else other) ≡ (is_running status || false)
kept-running true status other b o = ground arith
kept-running false status other b o = elim (Bool-cases (is_running status)) [
  | inl y ↦ let bad : false ≡ true = b y in cc
  | inr n ↦ ground (arith, n, o)
]

raise_status-running :
    (status : NodeStatus) (a : ActivityStatus)
    → is_running (raise_status status a) ≡ (is_running status || runs a)
raise_status-running status ActivityStatus.running = ground arith
raise_status-running status ActivityStatus.failed = ground arith
raise_status-running status ActivityStatus.deciding =
    kept-running (is_running status) status NodeStatus.deciding (λ h. h) refl
raise_status-running status ActivityStatus.starting =
    kept-running (is_running status) status NodeStatus.starting (λ h. h) refl
raise_status-running status ActivityStatus.queued =
    kept-running (is_busy status) status NodeStatus.queued (λ h. ground (arith, h)) refl
raise_status-running status ActivityStatus.retryable =
    kept-running (is_busy status) status NodeStatus.queued (λ h. ground (arith, h)) refl
raise_status-running status ActivityStatus.scheduled =
    kept-running (is_in_progress status) status NodeStatus.scheduled (λ h. ground (arith, h)) refl
raise_status-running status ActivityStatus.completed =
    kept-running (is_in_progress status) status NodeStatus.completed (λ h. ground (arith, h)) refl
raise_status-running status ActivityStatus.needs_human =
    kept-running (is_in_progress status) status NodeStatus.completed (λ h. ground (arith, h)) refl
raise_status-running status ActivityStatus.blocked =
    kept-running (is_in_progress status) status NodeStatus.completed (λ h. ground (arith, h)) refl
raise_status-running status ActivityStatus.paused =
    kept-running (is_in_progress status) status NodeStatus.completed (λ h. ground (arith, h)) refl

raise_by-running :
    (status : NodeStatus) (vs : List ActivityView)
    → is_running (raise_by status vs) ≡ (is_running status || any (λ v. runs v.status) vs)
unfolding raise_by
raise_by-running status [] = ground arith
raise_by-running status (v ∷ vs) = ground (
  arith,
  raise_by-running (raise_status status v.status) vs,
  raise_status-running status v.status,
)

bind_results-running :
    (s : State) (workflow_id : String) (ds : List String)
    → is_running (bind_results s workflow_id ds).0 ≡ false
unfolding bind_results
bind_results-running s workflow_id [] = refl
bind_results-running s workflow_id (d ∷ ds) =
    elim (Option-cases (latest_result_for_node s workflow_id d)) [
      | inl z ↦ ground (arith, z)
      | inr (r, z) ↦ ground (arith, z, bind_results-running s workflow_id ds)
    ]

-- A node that runs exactly if one of the activities that are its own runs.
abbrev pub IsRunningBy : List ActivityView → NodeView → Type 0
IsRunningBy vs n = is_running n.status ≡ any (λ v. v.node_id == n.id && runs v.status) vs

any-of_node :
    (id : String) (vs : List ActivityView)
    → any (λ v. runs v.status) (of_node id vs) ≡ any (λ v. v.node_id == id && runs v.status) vs
any-of_node id [] = refl
any-of_node id (v ∷ vs) = ground (arith, any-of_node id vs)

project_node-IsRunningBy :
    (s : State) (w : Workflow) (vs : List ActivityView) (n : Node)
    → IsRunningBy vs (project_node s w vs n)
unfolding project_node
project_node-IsRunningBy s w vs n =
    let start =
      (if is_zero n.superseded_at
        then bind_results s w.id n.dependencies
        else (NodeStatus.superseded, [])) in
    let idle : is_running start.0 ≡ false =
      ground (arith, bind_results-running s w.id n.dependencies) in
    raise_by-running start.0 (of_node n.id vs) ∙ rw idle (any-of_node n.id vs)

project_nodes-IsRunningBy :
    (s : State) (w : Workflow) (vs : List ActivityView) (ids : List String) (ns : List NodeView)
    → project_nodes s w vs ids ≡ ok ns
    → All (IsRunningBy vs) ns
unfolding project_nodes
project_nodes-IsRunningBy s w vs [] ns h =
    let same : [] ≡ ns = cc in subst (All (IsRunningBy vs)) same tt
project_nodes-IsRunningBy s w vs (id ∷ ids) ns h =
    let (n, _, r₀) = >>=-eq-ok (or_fail (lookup id w.nodes) panics) _ h in
    let (items, rest, r₁) = >>=-eq-ok (project_nodes s w vs ids) _ r₀ in
    let same : project_node s w vs n ∷ items ≡ ns = cc in
    subst (All (IsRunningBy vs)) same
      (project_node-IsRunningBy s w vs n, project_nodes-IsRunningBy s w vs ids items rest)

-- The view of an execution shows a node as running exactly if one of the activities of that node in the
-- view runs.
pub project_execution-running :
    (fuel : ℕ) (s : State) (execution_id : String) (as_of : Time) (v : ExecutionView)
    → project_execution fuel s execution_id as_of ≡ ok v
    → All (IsRunningBy v.activities) v.nodes
project_execution-running fuel s execution_id as_of v h =
    let o = open_execution fuel s execution_id as_of v h in
    project_nodes-IsRunningBy s o.workflow v.activities o.workflow.order v.nodes o.nodes
