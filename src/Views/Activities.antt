-- ===== src/Views/Activities.antt =====
-- projectActivity of internal/supervisor/projection.go. It follows the chain of fallback activities,
-- which here runs on fuel; the source would overflow its stack on a chain that does not end.
pub mod Chains
pub mod Launching
pub mod Returned
use durable_agent_handoff.Prelude.{
  ℕ, zero, suc, String, Bool, false, ◌&&◌, Option, none, some, List, [], ◌∷◌, lookup, eqb,
  if◌then◌else◌, is_some, panics, out_of_fuel, Fallible, ok, err, map_ok, pos, ltb_ℤ,
}
use durable_agent_handoff.Types.{
  Time, is_zero, after, ResultStatus, Workflow, Session, ResultBinding, Activity, Attempt, Result,
  State,
}
use durable_agent_handoff.Queries.{
  attempt_has_exit, has_turn_started, result_for_activity, launches_of, turns_of, runs_as_goal,
  worker_result_for_attempt,
}
use durable_agent_handoff.Queries.Ordered.{ordered_attempts_for_activity, fallback_child}

pub data ActivityStatus : Type 0 where
  queued scheduled starting running deciding retryable completed needs_human blocked :
      ActivityStatus
  paused failed : ActivityStatus

pub record ActivityView : Type 0 where
  pub id : String
  pub node_id : String
  pub session_id : String
  pub generation : ℕ
  pub parent_activity_id : String
  pub status : ActivityStatus
  pub dependency_bindings : List ResultBinding
  pub result_id : String
  pub result_summary : String
  pub blocker_kind : String
  pub question : String
  pub not_before : Option Time

abbrev pub set_time : Option Time → Option Time
set_time none = none
set_time (some t) = if is_zero t then none else some t

abbrev pub new_view : Activity → ActivityView
new_view a = record {
  id = a.id;
  node_id = a.node_id;
  session_id = a.session_id;
  generation = a.generation;
  parent_activity_id = a.parent_activity_id;
  status = ActivityStatus.queued;
  dependency_bindings = a.dependency_bindings;
  result_id = "";
  result_summary = "";
  blocker_kind = "";
  question = "";
  not_before = set_time a.not_before;
}

abbrev pub status_of_result : ResultStatus → ActivityStatus
status_of_result ResultStatus.needs_human = ActivityStatus.needs_human
status_of_result ResultStatus.blocked = ActivityStatus.blocked
status_of_result _ = ActivityStatus.completed

abbrev with_result : ActivityView → Result → ActivityView
with_result view r = record view {
  status = status_of_result r.status;
  result_id = r.id;
  result_summary = r.summary;
  blocker_kind = r.blocker_kind;
  question = r.question;
}

-- workerResultAttemptForActivity
unfoldable pub worker_result_attempt : List Attempt → Option Attempt
worker_result_attempt [] = none
worker_result_attempt (a ∷ rest) =
    if is_some (worker_result_for_attempt a) then some a else worker_result_attempt rest

-- The first attempt without an exit
unfoldable pub live_attempt : List Attempt → Option Attempt
live_attempt [] = none
live_attempt (a ∷ rest) = if attempt_has_exit a then live_attempt rest else some a

abbrev pub is_unresolved : Option Session → Bool
is_unresolved none = false
is_unresolved (some x) = x.imported_unresolved

-- The status by the launches and turns so far; the source reads the budget of a workflow that is there.
abbrev pub status_by_budget : ℕ → ℕ → Option Workflow → Fallible ActivityStatus
status_by_budget launches turns w = if eqb launches 0 then ok ActivityStatus.queued else elim w [
  | none ↦ err panics
  | some found ↦
      if ltb_ℤ (pos launches) found.budget.max_launches
        && ltb_ℤ (pos turns) found.budget.max_task_attempts
      then ok ActivityStatus.retryable
      else ok ActivityStatus.failed
]

-- The attempt whose worker result waits for a decision, where the workflow runs as a goal.
abbrev pub waiting_result : State → Activity → Option Attempt
waiting_result s a =
    if runs_as_goal (lookup a.workflow_id s.workflows)
    then worker_result_attempt (ordered_attempts_for_activity s a.id)
    else none

-- What is known without a result or a result of the worker.
unfoldable pub status_of_work : State → Activity → Time → Fallible ActivityStatus
status_of_work s a as_of =
    if is_unresolved (lookup a.session_id s.sessions)
    then ok ActivityStatus.needs_human
    else if is_some (lookup a.workflow_id s.pauses)
    then ok ActivityStatus.paused
    else if (elim (set_time a.not_before) [ none ↦ false | some t ↦ after t as_of ])
    then ok ActivityStatus.scheduled
    else elim (live_attempt (ordered_attempts_for_activity s a.id)) [
      | some x ↦ ok (if has_turn_started x then ActivityStatus.running else ActivityStatus.starting)
      | none ↦
          status_by_budget (launches_of s a.id) (turns_of s a.id) (lookup a.workflow_id s.workflows)
    ]

-- A result ends the matter, and so does a result of the worker that waits for a decision.
abbrev pub by_result : Activity → Option Result → Fallible ActivityView → Fallible ActivityView
by_result a none otherwise = otherwise
by_result a (some r) otherwise = ok (with_result (new_view a) r)

abbrev pub by_waiting : Activity → Option Attempt → Fallible ActivityView → Fallible ActivityView
by_waiting a none otherwise = otherwise
by_waiting a (some x) otherwise = ok (record (new_view a) {
  status = if attempt_has_exit x then ActivityStatus.deciding else ActivityStatus.running;
})

-- The view of an activity without a fallback activity.
unfoldable pub project_own : State → Activity → Time → Fallible ActivityView
project_own s a as_of = by_result a (result_for_activity s a.id) (
    by_waiting a (waiting_result s a)
      (map_ok (λ status. record (new_view a) { status = status }) (status_of_work s a as_of)))

-- A fallback activity takes the place of the activity.
abbrev pub by_child :
    Activity
    → Option Activity
    → (Activity → Fallible ActivityView)
    → Fallible ActivityView
    → Fallible ActivityView
by_child a none project otherwise = otherwise
by_child a (some child) project otherwise =
    map_ok (λ view. record (new_view a) { status = view.status; result_id = view.result_id })
      (project child)

unfoldable pub project_activity : ℕ → State → Activity → Time → Fallible ActivityView
project_activity zero s a as_of = err out_of_fuel
project_activity (suc fuel) s a as_of =
    by_child a (fallback_child s a.id) (λ child. project_activity fuel s child as_of)
      (project_own s a as_of)
