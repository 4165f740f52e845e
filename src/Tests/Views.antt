-- ===== src/Tests/Views.antt =====
-- The views at concrete states.
use durable_agent_handoff.Prelude.{
  ℕ, ◌<◌, String, ◌≡◌, refl, sym, ap, ◌∙◌, subst, inl, inr, ◌&&◌, none, some, List, [], ◌∷◌, arith,
  ◌==◌, eq_iff, is_space, blank, lookup, put, values, if◌then◌else◌, Bool-cases, is_none, any, All,
  ok,
}
use durable_agent_handoff.Types.{MilestoneKind, Execution, Activity, Milestone, State, empty_state}
use durable_agent_handoff.Queries.{
  has_turn_started, has_provider_unavailable, result_for_activity, attempt_has_exit, runs_as_goal,
  latest_result_for_node, worker_result_for_attempt,
}
use durable_agent_handoff.Queries.Ordered.{
  fallback_child, select_oldest, ordered_activities, ordered_attempts,
  ordered_attempts_for_activity, belongs_to,
}
use durable_agent_handoff.Views.Activities.{
  ActivityStatus, ActivityView, project_own, project_activity,
}
use durable_agent_handoff.Views.Activities.Chains.{IsRanked, Falls, IsView, project_activity-last}
use durable_agent_handoff.Views.Attempts.{project_attempt, read_milestones}
use durable_agent_handoff.Views.Attempts.Health.{project_attempt-marks}
use durable_agent_handoff.Views.Activities.{worker_result_attempt, live_attempt, status_of_work}
use durable_agent_handoff.Views.Executions.{
  ExecutionView, execution_view, project_activities, project_attempts, project_execution,
}
use durable_agent_handoff.Views.Executions.Nodes.{
  NodeStatus, NodeView, bind_results, raise_by, project_node, project_nodes,
}
use durable_agent_handoff.Views.Executions.Consistency.{goes_on, project_execution-active}
use durable_agent_handoff.Views.Executions.Latest.{IsLatest, project_execution-IsLatest}
use durable_agent_handoff.Views.Executions.Running.{IsRunningBy, project_execution-running}
use durable_agent_handoff.Tests.Fixtures.{
  goal_workflow, activity, attempt_with, milestone_of, idle, launched,
}

-- An activity whose provider was unavailable, with its fallback activity
abbrev fallback : Activity
fallback = record activity {
  id = "a2";
  session_id = "s2";
  parent_activity_id = "a1";
  created_at = 4;
}

abbrev fallen : State
fallen = record idle { activities = ("a1", activity) ∷ ("a2", fallback) ∷ [] }

abbrev place : String → ℕ
place id = if id == "a2" then 1 else 0

child_of_first : fallback_child fallen "a1" ≡ some fallback
unfolding fallback_child lookup values select_oldest
child_of_first = refl

child_of_second : fallback_child fallen "a2" ≡ none
unfolding fallback_child lookup values select_oldest
child_of_second = refl

fallen-IsRanked : IsRanked fallen place 2
unfolding fallback_child lookup values
fallen-IsRanked a b child = elim (Bool-cases ("a1" == a.id)) [
  | inl first ↦
      let same : "a1" ≡ a.id = (eq_iff "a1" a.id).0 first in
      let found : some fallback ≡ some b =
        sym child_of_first ∙ ap (fallback_child fallen) same ∙ child in
      let that : fallback ≡ b = cc in
      subst (λ x. (place x < place b.id) × (place b.id < 2)) same
        (subst (λ x. (place "a1" < place x.id) × (place x.id < 2)) that (omega arith, omega arith))
  | inr other ↦ elim (Bool-cases ("a2" == a.id)) [
    | inl second ↦
        let same : "a2" ≡ a.id = (eq_iff "a2" a.id).0 second in
        let bad : fallback_child fallen "a2" ≡ some b = ap (fallback_child fallen) same ∙ child in
        let none_found : none ≡ some b = sym child_of_second ∙ bad in
        absurd (ground (arith, none_found))
    | inr neither ↦
        let gone : fallback_child fallen a.id ≡ none =
          rw (fallback_child, lookup, other, neither) refl in
        let none_found : none ≡ some b = sym gone ∙ child in absurd (ground (arith, none_found))
  ]
]

project_activity-last_example :
    (last : Activity) × Falls fallen activity last
    × IsView activity (project_own fallen last 9) (project_activity 3 fallen activity 9)
project_activity-last_example =
    project_activity-last fallen place 2 2 activity 9 fallen-IsRanked (omega arith)

abbrev turn : List Milestone
turn = milestone_of MilestoneKind.process_spawned ∷ milestone_of MilestoneKind.turn_started ∷ []

project_attempt-marks_example :
    ((project_attempt launched (attempt_with turn)).turn_started
      ≡ has_turn_started (attempt_with turn))
    × ((project_attempt launched (attempt_with turn)).provider_unavailable
        ≡ has_provider_unavailable (attempt_with turn))
project_attempt-marks_example = project_attempt-marks launched (attempt_with turn)

-- An execution whose one activity has an attempt that runs.
abbrev execution : Execution
execution = record {
  id = "e1";
  workflow_id = "w1";
  root_node_id = "n1";
  session_id = "s1";
  first_activity = "a1";
  idempotency_key = "start-0001";
  input_digest = "d1";
  created_at = 1;
}

abbrev underway : State
underway = record launched {
  executions = ("e1", execution) ∷ [];
  attempts = ("t1", attempt_with turn) ∷ [];
}

abbrev views : List ActivityView
views =
    record {
      id = "a1";
      node_id = "n1";
      session_id = "s1";
      generation = 1;
      parent_activity_id = "";
      status = ActivityStatus.running;
      dependency_bindings = [];
      result_id = "";
      result_summary = "";
      blocker_kind = "";
      question = "";
      not_before = none;
    }
    ∷ []

abbrev node_views : List NodeView
node_views =
    record {
      id = "n1";
      status = NodeStatus.running;
      bound_result_ids = [];
      activity_ids = "a1" ∷ [];
    }
    ∷ record {
      id = "n2";
      status = NodeStatus.waiting_dependencies;
      bound_result_ids = [];
      activity_ids = [];
    }
    ∷ []

abbrev shown : ExecutionView
shown =
    execution_view underway execution goal_workflow views
      (record (project_attempt underway (attempt_with turn)) { task_attempt = 1 } ∷ []) node_views 9

shows : project_execution 1 underway "e1" 9 ≡ ok shown
unfolding project_execution project_activities project_activity project_own status_of_work
    project_attempts project_attempt read_milestones project_nodes project_node bind_results
    raise_by lookup ordered_activities ordered_attempts ordered_attempts_for_activity fallback_child
    result_for_activity worker_result_attempt live_attempt attempt_has_exit has_turn_started
    has_provider_unavailable runs_as_goal latest_result_for_node values belongs_to select_oldest
    worker_result_for_attempt blank is_space empty_state put
shows = refl

project_execution-active_example :
    shown.active ≡ (is_none (lookup "w1" underway.pauses) && any (goes_on views) node_views)
project_execution-active_example = project_execution-active 1 underway "e1" 9 shown shows

project_execution-running_example : All (IsRunningBy views) node_views
project_execution-running_example = project_execution-running 1 underway "e1" 9 shown shows

project_execution-IsLatest_example :
    (e : Execution) × (lookup "e1" underway.executions ≡ some e)
    × IsLatest underway "w1" e.created_at shown.updated_at
project_execution-IsLatest_example = project_execution-IsLatest 1 underway "e1" 9 shown shows
