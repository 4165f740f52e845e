-- ===== src/Views/Executions.antt =====
-- ProjectExecution of internal/supervisor/projection.go, with projectExecutionStatus (Status) and
-- projectExecutionSummary (Summary).
pub mod Status
pub mod Summary
pub mod Nodes
pub mod Consistency
pub mod Returns
pub mod Opened
pub mod Latest
pub mod Running
use durable_agent_handoff.Prelude.{
  ℕ, ◌+◌, String, Bool, true, false, not, ◌&&◌, Option, none, some, List, [], ◌∷◌, map, Assoc,
  lookup, put, if◌then◌else◌, is_some, is_none, keep, not_exist, invalid, panics, Fallible, ok,
  ◌>>=◌, ◌>>◌, or_fail, ℤ,
}
use durable_agent_handoff.Types.{
  Time, before, ExecutionMode, RuntimeSpec, Execution, Node, Workflow, Activity, Attempt, State,
}
use durable_agent_handoff.Journal.{Ledger, projection}
use durable_agent_handoff.Queries.{has_provider_unavailable}
use durable_agent_handoff.Queries.Ordered.{ordered_activities, ordered_attempts, fallback_child}
use durable_agent_handoff.Commands.Finalizer.{PublicationState, project_publication}
use durable_agent_handoff.Views.Activities.{ActivityStatus, ActivityView, project_activity}
use durable_agent_handoff.Views.Attempts.{AttemptView, project_attempt}
use durable_agent_handoff.Views.Executions.Nodes.{NodeView, project_nodes}
use durable_agent_handoff.Views.Executions.Status.{ExecutionStatus, execution_status}
use durable_agent_handoff.Views.Executions.Summary.{execution_summary}

pub record ExecutionView : Type 0 where
  pub id : String
  pub workflow_id : String
  pub session_id : String
  pub runtime : Option RuntimeSpec
  pub root : String
  pub mode : ExecutionMode
  pub supervision_interval_seconds : ℤ
  pub title : String
  pub status : ExecutionStatus
  pub active : Bool
  pub summary : String
  pub updated_at : Time
  pub nodes : List NodeView
  pub activities : List ActivityView
  pub attempts : List AttemptView
  pub queue : List String
  pub pending_turns : List String
  pub publication : PublicationState
  pub next_wake_at : Option Time
  pub as_of : Time

unfoldable pub project_activities : ℕ → State → Time → List Activity → Fallible (List ActivityView)
project_activities fuel s as_of [] = ok []
project_activities fuel s as_of (a ∷ rest) = do
  item ← project_activity fuel s a as_of
  items ← project_activities fuel s as_of rest
  ok (item ∷ items)

abbrev pub waits_in_queue : ActivityStatus → Bool
waits_in_queue ActivityStatus.queued = true
waits_in_queue ActivityStatus.retryable = true
waits_in_queue _ = false

unfoldable pub queue_of : State → List ActivityView → List String
queue_of s [] = []
queue_of s (v ∷ vs) =
    if waits_in_queue v.status && is_none (fallback_child s v.id)
    then v.id ∷ queue_of s vs
    else queue_of s vs

abbrev is_sooner : Time → Option Time → Bool
is_sooner t none = true
is_sooner t (some best) = before t best

abbrev wake_of : ActivityStatus → Option Time → Option Time
wake_of ActivityStatus.scheduled t = t
wake_of _ t = none

-- The earliest of the times at which scheduled activities wake.
unfoldable pub next_wake : Option Time → List ActivityView → Option Time
next_wake best [] = best
next_wake best (v ∷ vs) = elim (wake_of v.status v.not_before) [
  | none ↦ next_wake best vs
  | some t ↦ next_wake (if is_sooner t best then some t else best) vs
]

abbrev is_deciding : ActivityStatus → Bool
is_deciding ActivityStatus.deciding = true
is_deciding _ = false

abbrev pending_of : List ActivityView → List String
pending_of vs = map (λ v. v.id) (keep (λ v. is_deciding v.status) vs)

abbrev ordinal_of : String → Assoc ℕ → ℕ
ordinal_of node_id ordinals = elim (lookup node_id ordinals) [ none ↦ 0 | some n ↦ n ]

-- The views of the attempts, where an attempt that took a turn has its number among those of the node.
unfoldable pub project_attempts : State → Assoc ℕ → List Attempt → Fallible (List AttemptView)
project_attempts s ordinals [] = ok []
project_attempts s ordinals (a ∷ rest) = do
  activity ← or_fail (lookup a.activity_id s.activities) panics
  let item = project_attempt s a
  let counts = item.turn_started && not (has_provider_unavailable a)
  let number = ordinal_of activity.node_id ordinals + 1
  items ←
      project_attempts s (if counts then put activity.node_id number ordinals else ordinals) rest
  ok ((if counts then record item { task_attempt = number } else item) ∷ items)

abbrev pub root_runtime : Option Node → Option RuntimeSpec
root_runtime none = none
root_runtime (some n) = some n.work.runtime

abbrev root_title : Option Node → String
root_title none = ""
root_title (some n) = n.title

-- A paused workflow is shown as paused, and not as active.
abbrev pub shown_status :
    State → Workflow → List NodeView → List ActivityView → ExecutionStatus × Bool
shown_status s w nodes activities =
    if is_some (lookup w.id s.pauses)
    then (ExecutionStatus.paused, false)
    else execution_status nodes activities

-- The view, put together of its parts
abbrev pub execution_view :
    State
    → Execution
    → Workflow
    → List ActivityView
    → List AttemptView
    → List NodeView
    → Time
    → ExecutionView
execution_view s e w activities attempts nodes as_of = record {
  id = e.id;
  workflow_id = w.id;
  session_id = e.session_id;
  runtime = root_runtime (lookup e.root_node_id w.nodes);
  root = w.root;
  mode = w.mode;
  supervision_interval_seconds = w.supervision_interval_seconds;
  title = root_title (lookup e.root_node_id w.nodes);
  status = (shown_status s w nodes activities).0;
  active = (shown_status s w nodes activities).1;
  summary = (execution_summary s w.id e.created_at).0;
  updated_at = (execution_summary s w.id e.created_at).1;
  nodes = nodes;
  activities = activities;
  attempts = attempts;
  queue = queue_of s activities;
  pending_turns = pending_of activities;
  publication = project_publication w s;
  next_wake_at = next_wake none activities;
  as_of = as_of;
}

-- The fuel is for the chains of fallback activities.
unfoldable pub project_execution : ℕ → State → String → Time → Fallible ExecutionView
project_execution fuel s execution_id as_of = do
  e ← or_fail (lookup execution_id s.executions) not_exist
  w ← or_fail (lookup e.workflow_id s.workflows) (invalid "execution workflow is absent")
  activities ← project_activities fuel s as_of (ordered_activities s w.id)
  attempts ← project_attempts s [] (ordered_attempts s w.id)
  nodes ← project_nodes s w activities w.order
  ok (execution_view s e w activities attempts nodes as_of)
