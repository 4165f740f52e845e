-- ===== src/Views/Executions/Consistency.antt =====
-- When the view of an execution shows it as active.
use durable_agent_handoff.Prelude.{
  ℕ, String, ◌≡◌, refl, ap, ◌∙◌, inl, inr, Bool, true, false, not, ◌&&◌, ◌||◌, Option, none, some,
  List, [], ◌∷◌, arith, ◌==◌, lookup, leb, if◌then◌else◌, Option-cases, is_none, any, ok,
}
use durable_agent_handoff.Types.{Time, State}
use durable_agent_handoff.Views.Activities.{ActivityStatus, ActivityView}
use durable_agent_handoff.Views.Executions.{ExecutionView, project_execution}
use durable_agent_handoff.Views.Executions.Nodes.{NodeView}
use durable_agent_handoff.Views.Executions.Opened.{open_execution}
use durable_agent_handoff.Views.Executions.Status.{
  holds, first_candidate, status_by, statuses_of, some_waits, execution_status, latest_of, is_newer,
  is_superseded, not_begun,
}

-- An activity that is neither at its end, nor paused.
abbrev pub is_open : ActivityStatus → Bool
is_open ActivityStatus.completed = false
is_open ActivityStatus.paused = false
is_open ActivityStatus.failed = false
is_open _ = true

-- The statuses that the candidates name are those of the open activities.
abbrev names_open : List ActivityStatus → Bool
names_open statuses =
    holds statuses ActivityStatus.needs_human
    || holds statuses ActivityStatus.blocked
    || holds statuses ActivityStatus.running
    || holds statuses ActivityStatus.starting
    || holds statuses ActivityStatus.deciding
    || holds statuses ActivityStatus.queued
    || holds statuses ActivityStatus.retryable
    || holds statuses ActivityStatus.scheduled

holds-open : (statuses : List ActivityStatus) → names_open statuses ≡ any is_open statuses
holds-open [] = refl
holds-open (ActivityStatus.queued ∷ rest) = ground (arith, holds-open rest)
holds-open (ActivityStatus.scheduled ∷ rest) = ground (arith, holds-open rest)
holds-open (ActivityStatus.starting ∷ rest) = ground (arith, holds-open rest)
holds-open (ActivityStatus.running ∷ rest) = ground (arith, holds-open rest)
holds-open (ActivityStatus.deciding ∷ rest) = ground (arith, holds-open rest)
holds-open (ActivityStatus.retryable ∷ rest) = ground (arith, holds-open rest)
holds-open (ActivityStatus.completed ∷ rest) = holds-open rest
holds-open (ActivityStatus.needs_human ∷ rest) = ground (arith, holds-open rest)
holds-open (ActivityStatus.blocked ∷ rest) = ground (arith, holds-open rest)
holds-open (ActivityStatus.paused ∷ rest) = holds-open rest
holds-open (ActivityStatus.failed ∷ rest) = holds-open rest

status_by-active :
    (statuses : List ActivityStatus) (waits : Bool)
    → (status_by statuses waits).1 ≡ (names_open statuses || waits)
unfolding first_candidate
status_by-active statuses waits = ground arith

-- The latest of a node's activities: of the highest generation, and the last of those that have it.
abbrev pub newest : String → List ActivityView → Option ActivityView
newest node_id [] = none
newest node_id (v ∷ vs) =
    if v.node_id == node_id
    then elim (newest node_id vs) [
      | none ↦ some v
      | some later ↦ if leb v.generation later.generation then some later else some v
    ]
    else newest node_id vs

-- The later of two, of which the second stands after the first.
abbrev later_of : Option ActivityView → Option ActivityView → Option ActivityView
later_of none w = w
later_of (some v) none = some v
later_of (some v) (some w) = if leb v.generation w.generation then some w else some v

latest_of-newest :
    (node_id : String) (current : Option ActivityView) (vs : List ActivityView)
    → latest_of node_id current vs ≡ later_of current (newest node_id vs)
unfolding latest_of
latest_of-newest node_id none [] = refl
latest_of-newest node_id (some c) [] = refl
latest_of-newest node_id current (v ∷ vs) =
    latest_of-newest node_id
      (if v.node_id == node_id && is_newer v current then some v else current) vs
    ∙ joined current (newest node_id vs)
  where
    joined :
        (current w : Option ActivityView)
        → later_of (if v.node_id == node_id && is_newer v current then some v else current) w
          ≡ later_of current (
              if v.node_id == node_id
              then elim w [
                | none ↦ some v
                | some later ↦ if leb v.generation later.generation then some later else some v
              ]
              else w)
    joined none none = ground arith
    joined none (some w) = ground arith
    joined (some c) none = ground arith
    joined (some c) (some w) = ground arith

-- Whether a node goes on: its latest activity is open and it is not superseded, or it has no activity
-- and waits for its dependencies or to be queued.
abbrev pub goes_on : List ActivityView → NodeView → Bool
goes_on vs n = elim (newest n.id vs) [
  | some v ↦ not (is_superseded n.status) && is_open v.status
  | none ↦ not_begun n.status
]

nodes-goes_on :
    (ns : List NodeView) (vs : List ActivityView)
    → (any is_open (statuses_of ns vs) || some_waits ns vs) ≡ any (goes_on vs) ns
unfolding statuses_of some_waits
nodes-goes_on [] vs = refl
nodes-goes_on (n ∷ ns) vs =
    let last = latest_of-newest n.id none vs in
    elim (Option-cases (newest n.id vs)) [
      | inl z ↦ rw (last, z) (ground (arith, nodes-goes_on ns vs))
      | inr (v, z) ↦ rw (last, z) (ground (arith, nodes-goes_on ns vs))
    ]

-- The view of an execution shows it as active exactly if its workflow is not paused and one of its nodes
-- goes on: the node is not shown as superseded and its latest activity is neither completed, paused nor failed,
-- or it has no activity and is eligible or waits for its dependencies. The latest activity is the last
-- of those with the highest generation.
pub project_execution-active :
    (fuel : ℕ) (s : State) (execution_id : String) (as_of : Time) (v : ExecutionView)
    → project_execution fuel s execution_id as_of ≡ ok v
    → v.active ≡ (is_none (lookup v.workflow_id s.pauses) && any (goes_on v.activities) v.nodes)
unfolding execution_status
project_execution-active fuel s execution_id as_of v h =
    (open_execution fuel s execution_id as_of v h).active
    ∙ ap (λ b. is_none (lookup v.workflow_id s.pauses) && b)
        (status_by-active (statuses_of v.nodes v.activities) (some_waits v.nodes v.activities)
          ∙ ap (λ b. b || some_waits v.nodes v.activities)
              (holds-open (statuses_of v.nodes v.activities))
          ∙ nodes-goes_on v.nodes v.activities)
