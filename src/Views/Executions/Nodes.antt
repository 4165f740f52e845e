-- ===== src/Views/Executions/Nodes.antt =====
-- The views of the nodes in ProjectExecution of internal/supervisor/projection.go.
use durable_agent_handoff.Prelude.{
  String, Bool, true, false, ◌||◌, none, some, List, [], ◌∷◌, map, ◌==◌, lookup, if◌then◌else◌,
  keep, panics, Fallible, ok, ◌>>=◌, or_fail,
}
use durable_agent_handoff.Types.{is_zero, Node, Workflow, State}
use durable_agent_handoff.Queries.{latest_result_for_node}
use durable_agent_handoff.Views.Activities.{ActivityStatus, ActivityView}

pub data NodeStatus : Type 0 where
  waiting_dependencies eligible queued scheduled starting running deciding completed : NodeStatus
  superseded : NodeStatus

pub record NodeView : Type 0 where
  pub id : String
  pub status : NodeStatus
  pub bound_result_ids : List String
  pub activity_ids : List String

-- The loop over the dependencies, which breaks at the first that has no result.
unfoldable pub bind_results : State → String → List String → NodeStatus × List String
bind_results s workflow_id [] = (NodeStatus.eligible, [])
bind_results s workflow_id (d ∷ ds) = elim (latest_result_for_node s workflow_id d) [
  | none ↦ (NodeStatus.waiting_dependencies, [])
  | some r ↦ let (status, ids) = bind_results s workflow_id ds in (status, r.id ∷ ids)
]

abbrev pub is_running : NodeStatus → Bool
is_running NodeStatus.running = true
is_running _ = false

abbrev is_starting : NodeStatus → Bool
is_starting NodeStatus.starting = true
is_starting _ = false

abbrev is_queued_node : NodeStatus → Bool
is_queued_node NodeStatus.queued = true
is_queued_node _ = false

-- Whether a node is in one of the first two, or of the three, statuses that scheduled and ended
-- activities do not change.
abbrev pub is_busy : NodeStatus → Bool
is_busy status = is_running status || is_starting status

abbrev pub is_in_progress : NodeStatus → Bool
is_in_progress status = is_busy status || is_queued_node status

-- What an activity of the node makes of its status.
abbrev pub raise_status : NodeStatus → ActivityStatus → NodeStatus
raise_status status ActivityStatus.running = NodeStatus.running
raise_status status ActivityStatus.deciding =
    if is_running status then status else NodeStatus.deciding
raise_status status ActivityStatus.starting =
    if is_running status then status else NodeStatus.starting
raise_status status ActivityStatus.queued = if is_busy status then status else NodeStatus.queued
raise_status status ActivityStatus.retryable = if is_busy status then status else NodeStatus.queued
raise_status status ActivityStatus.scheduled =
    if is_in_progress status then status else NodeStatus.scheduled
raise_status status ActivityStatus.failed = status
raise_status status _ = if is_in_progress status then status else NodeStatus.completed

unfoldable pub raise_by : NodeStatus → List ActivityView → NodeStatus
raise_by status [] = status
raise_by status (v ∷ vs) = raise_by (raise_status status v.status) vs

abbrev pub of_node : String → List ActivityView → List ActivityView
of_node node_id vs = keep (λ v. v.node_id == node_id) vs

unfoldable pub project_node : State → Workflow → List ActivityView → Node → NodeView
project_node s w vs n =
    let start =
      (if is_zero n.superseded_at
        then bind_results s w.id n.dependencies
        else (NodeStatus.superseded, [])) in
    record {
      id = n.id;
      status = raise_by start.0 (of_node n.id vs);
      bound_result_ids = start.1;
      activity_ids = map (λ v. v.id) (of_node n.id vs);
    }

unfoldable pub project_nodes :
    State → Workflow → List ActivityView → List String → Fallible (List NodeView)
project_nodes s w vs [] = ok []
project_nodes s w vs (id ∷ ids) = do
  n ← or_fail (lookup id w.nodes) panics
  items ← project_nodes s w vs ids
  ok (project_node s w vs n ∷ items)
