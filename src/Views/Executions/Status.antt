-- ===== src/Views/Executions/Status.antt =====
-- projectExecutionStatus of internal/supervisor/projection.go: the status of an execution by the latest
-- activities of its nodes, in an order of precedence.
use durable_agent_handoff.Prelude.{
  ℕ, String, Bool, true, false, ◌&&◌, Option, none, some, List, [], ◌∷◌, ◌==◌, leb, eqb,
  if◌then◌else◌, is_none, any,
}
use durable_agent_handoff.Views.Activities.{ActivityStatus, ActivityView}
use durable_agent_handoff.Views.Executions.Nodes.{NodeStatus, NodeView}

pub data ExecutionStatus : Type 0 where
  waiting queued scheduled starting running deciding needs_human blocked : ExecutionStatus
  completed paused failed : ExecutionStatus

-- The number of a status, to compare two
abbrev pub rank : ActivityStatus → ℕ
rank ActivityStatus.queued = 0
rank ActivityStatus.scheduled = 1
rank ActivityStatus.starting = 2
rank ActivityStatus.running = 3
rank ActivityStatus.deciding = 4
rank ActivityStatus.retryable = 5
rank ActivityStatus.completed = 6
rank ActivityStatus.needs_human = 7
rank ActivityStatus.blocked = 8
rank ActivityStatus.paused = 9
rank ActivityStatus.failed = 10

abbrev pub is_newer : ActivityView → Option ActivityView → Bool
is_newer v none = true
is_newer v (some current) = leb current.generation v.generation

-- The entry of a node in the map of latest activities
unfoldable pub latest_of : String → Option ActivityView → List ActivityView → Option ActivityView
latest_of node_id current [] = current
latest_of node_id current (v ∷ vs) =
    latest_of node_id (if v.node_id == node_id && is_newer v current then some v else current) vs

abbrev pub is_superseded : NodeStatus → Bool
is_superseded NodeStatus.superseded = true
is_superseded _ = false

-- The statuses of the latest activities of the nodes.
unfoldable pub statuses_of : List NodeView → List ActivityView → List ActivityStatus
statuses_of [] vs = []
statuses_of (n ∷ ns) vs =
    let rest = statuses_of ns vs in
    if is_superseded n.status
    then rest
    else elim (latest_of n.id none vs) [ none ↦ rest | some v ↦ v.status ∷ rest ]

abbrev pub not_begun : NodeStatus → Bool
not_begun NodeStatus.eligible = true
not_begun NodeStatus.waiting_dependencies = true
not_begun _ = false

-- Whether a node waits that has no activity.
unfoldable pub some_waits : List NodeView → List ActivityView → Bool
some_waits ns vs = any (λ n. not_begun n.status && is_none (latest_of n.id none vs)) ns

abbrev pub holds : List ActivityStatus → ActivityStatus → Bool
holds statuses status = any (λ other. eqb (rank status) (rank other)) statuses

-- The candidates in their order
abbrev pub precedence : List (ActivityStatus × ExecutionStatus)
precedence =
    (ActivityStatus.needs_human, ExecutionStatus.needs_human)
    ∷ (ActivityStatus.blocked, ExecutionStatus.blocked)
    ∷ (ActivityStatus.running, ExecutionStatus.running)
    ∷ (ActivityStatus.starting, ExecutionStatus.starting)
    ∷ (ActivityStatus.deciding, ExecutionStatus.deciding)
    ∷ (ActivityStatus.queued, ExecutionStatus.queued)
    ∷ (ActivityStatus.retryable, ExecutionStatus.queued)
    ∷ (ActivityStatus.scheduled, ExecutionStatus.scheduled)
    ∷ []

unfoldable pub first_candidate :
    List ActivityStatus → List (ActivityStatus × ExecutionStatus) → Option ExecutionStatus
first_candidate statuses [] = none
first_candidate statuses ((activity, execution) ∷ rest) =
    if holds statuses activity then some execution else first_candidate statuses rest

abbrev pub status_by : List ActivityStatus → Bool → ExecutionStatus × Bool
status_by statuses some_node_waits = elim (first_candidate statuses precedence) [
  | some status ↦ (status, true)
  | none ↦
      if some_node_waits
      then (ExecutionStatus.waiting, true)
      else if holds statuses ActivityStatus.failed
      then (ExecutionStatus.failed, false)
      else if holds statuses ActivityStatus.paused
      then (ExecutionStatus.paused, false)
      else (ExecutionStatus.completed, false)
]

unfoldable pub execution_status : List NodeView → List ActivityView → ExecutionStatus × Bool
execution_status ns vs = status_by (statuses_of ns vs) (some_waits ns vs)
