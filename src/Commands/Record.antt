-- ===== src/Commands/Record.antt =====
-- recordMilestoneCommand of internal/supervisor/commands.go: a milestone with what it entails, the
-- result of a turn, the settlement of messages and the release of the lease at the exit.
pub mod Releases
use durable_agent_handoff.Prelude.{
  ℕ, String, Bool, true, false, not, ◌&&◌, ◌||◌, Option, none, some, List, [], ◌∷◌, ◌++◌, ◌==◌,
  blank, lookup, eqb, if◌then◌else◌, is_some, is_none, fenced, panics, Fallible, ok, ◌>>=◌, ◌>>◌,
  refuse, or_fail, ℤ, pos, eqb_ℤ, join, decimal_ℤ,
}
use durable_agent_handoff.Types.{
  Time, is_zero, is_session_mode, MilestoneKind, is_result, is_exit, is_adapter_start_failed,
  is_provider_unavailable, is_meaningful_progress, ResultStatus, DecisionOutcome, Workflow,
  Activity, WorkerResult, Exit, Milestone, Attempt, Result, Lease, State,
}
use durable_agent_handoff.Environment.{Environment, stable_id}
use durable_agent_handoff.Events.{DomainEvent}
use durable_agent_handoff.Queries.{result_for_activity, runs_as_goal}
use durable_agent_handoff.Commands.{Decision, settle_messages}
use durable_agent_handoff.Commands.Milestones.{validate_milestone}

pub record RecordMilestoneInput : Type 0 where
  pub activity_id : String
  pub expected_generation : ℕ
  pub attempt_id : String
  pub lease_id : String
  pub milestone : Milestone
  pub idempotency_key : String

-- The command names one attempt of one generation, under the lease that it still holds.
unfoldable pub is_fenced : RecordMilestoneInput → Attempt → Activity → Lease → Bool
is_fenced i attempt activity lease =
    not (eqb activity.generation i.expected_generation)
    || not (attempt.activity_id == activity.id)
    || not (eqb attempt.activity_generation activity.generation)
    || not (attempt.lease_id == lease.id)
    || not (lease.attempt_id == attempt.id)
    || not (is_zero lease.released_at)

abbrev pub new_result : Environment → Attempt → Activity → WorkerResult → Time → Result
new_result env attempt activity r now = record {
  id = stable_id env "result" activity.id;
  workflow_id = activity.workflow_id;
  node_id = activity.node_id;
  activity_id = activity.id;
  attempt_id = attempt.id;
  generation = activity.generation;
  status = r.status;
  summary = r.summary;
  blocker_kind = r.blocker_kind;
  question = r.question;
  decision = DecisionOutcome.undecided;
  decided_by = "";
  created_at = now;
}

-- m.Kind == MilestoneResult: a goal's result waits for its decision
unfoldable pub result_events :
    Environment → State → Attempt → Activity → Milestone → Time → Fallible (List DomainEvent)
result_events env s attempt activity m now =
    if not (is_result m.kind)
    then ok []
    else if runs_as_goal (lookup activity.workflow_id s.workflows)
    then ok (settle_messages s activity.id attempt.id true now)
    else or_fail m.result panics >>= λ r. ok (
        DomainEvent.result_created (some (new_result env attempt activity r now))
        ∷ settle_messages s activity.id attempt.id true now)

abbrev exit_code : Option Exit → ℤ
exit_code none = pos 0
exit_code (some e) = e.code

-- The last progress that says something, or else the summary so far.
unfoldable pub last_progress : String → List Milestone → String
last_progress summary [] = summary
last_progress summary (m ∷ ms) =
    last_progress
      (if is_meaningful_progress m.kind && not (blank m.progress) then m.progress else summary) ms

-- The result of a background session, from its exit code and its progress.
unfoldable pub session_outcome : Attempt → Milestone → WorkerResult
unfolding last_progress
session_outcome attempt m =
    if eqb_ℤ (exit_code m.exit) (pos 0)
    then record {
      status = ResultStatus.completed;
      summary = last_progress "Harness exited successfully" attempt.milestones;
      blocker_kind = "";
      question = "";
    }
    else record {
      status = ResultStatus.blocked;
      summary =
          last_progress (join "Harness exited with code " (decimal_ℤ (exit_code m.exit)))
            attempt.milestones;
      blocker_kind = "";
      question = "";
    }

abbrev is_session : Option Workflow → Bool
is_session none = false
is_session (some w) = is_session_mode w.mode

unfoldable pub session_events :
    Environment → State → Attempt → Activity → Milestone → Time → List DomainEvent
unfolding session_outcome
session_events env s attempt activity m now =
    if is_exit m.kind
      && is_none (result_for_activity s activity.id)
      && is_session (lookup activity.workflow_id s.workflows)
    then DomainEvent.result_created
        (some (new_result env attempt activity (session_outcome attempt m) now))
      ∷ []
    else []

abbrev pub is_terminal : MilestoneKind → Bool
is_terminal k = is_exit k || is_adapter_start_failed k || is_provider_unavailable k

unfoldable pub terminal_events :
    State → Attempt → Activity → Lease → Milestone → Time → List DomainEvent
terminal_events s attempt activity lease m now =
    (if is_terminal m.kind && (not (is_exit m.kind) || is_none (result_for_activity s activity.id))
      then settle_messages s activity.id attempt.id false now
      else [])
    ++ (if is_exit m.kind then DomainEvent.lease_released lease.id now ∷ [] else [])

abbrev pub with_time : Milestone → Time → Milestone
with_time m now = if is_zero m.at then record m { at = now } else m

unfoldable pub record_milestone : Environment → RecordMilestoneInput → State → Time → Decision
record_milestone env i s now = do
  attempt ← or_fail (lookup i.attempt_id s.attempts) fenced
  activity ← or_fail (lookup i.activity_id s.activities) fenced
  lease ← or_fail (lookup i.lease_id s.leases) fenced
  refuse (is_fenced i attempt activity lease) fenced
  refuse (is_some (lookup activity.workflow_id s.pauses) && not (is_exit i.milestone.kind)) fenced
  let m = with_time i.milestone now
  validate_milestone s attempt activity m
  results ← result_events env s attempt activity m now
  ok (
    DomainEvent.milestone_recorded attempt.id m
        ∷ (results
            ++ (session_events env s attempt activity m now
                ++ terminal_events s attempt activity lease m now)),
    attempt.id,
  )
