-- ===== src/Views/Activities/Launching.antt =====
-- The views and the launches agree: what PrepareAttempt accepts is shown as queued or retryable.
use durable_agent_handoff.Prelude.{ℕ, suc, ◌≡◌, false, none, values, is_some, any, ok, pos, leb_ℤ}
use durable_agent_handoff.Types.{Time, Workflow, Activity, State}
use durable_agent_handoff.Environment.{Environment}
use durable_agent_handoff.Queries.{result_for_activity, launches_of, turns_of}
use durable_agent_handoff.Queries.Ordered.{fallback_child, worker_result_for_activity}
use durable_agent_handoff.Commands.Prepare.{is_live_for}
use durable_agent_handoff.Views.Activities.{ActivityStatus, ActivityView, project_activity}

-- A status that brings an activity without a fallback activity to the queue.
abbrev pub IsQueued : ActivityStatus → Type 0
IsQueued ActivityStatus.queued = Unit {0}
IsQueued ActivityStatus.retryable = Unit {0}
IsQueued _ = ⊥

-- What check_activity and check_room leave.
IsClear : State → Activity → Workflow → Type 0
IsClear s a w =
    (is_some (result_for_activity s a.id) ≡ false)
    × (is_some (worker_result_for_activity s a.id) ≡ false)
    × (is_some (fallback_child s a.id) ≡ false)
    × (leb_ℤ w.budget.max_launches (pos (launches_of s a.id)) ≡ false)
    × (leb_ℤ w.budget.max_task_attempts (pos (turns_of s a.id)) ≡ false)
    × (any (is_live_for a.id) (values s.attempts) ≡ false)

-- The view of an activity that stands in the queue.
abbrev pub IsShown : State → Activity → Time → ℕ → Type 0
IsShown s a now fuel =
    (view : ActivityView) × (fallback_child s a.id ≡ none)
    × (project_activity (suc fuel) s a now ≡ ok view)
    × IsQueued view.status
