-- ===== src/Commands/Turn.antt =====
-- decideTurnCommand of internal/supervisor/commands.go: the evaluator's decision on one worker turn,
-- and the next activity of the session in the same entry when the goal continues.
pub mod Outcomes
pub mod Continuing
use durable_agent_handoff.Prelude.{
  ℕ, zero, suc, ◌+◌, ◌-◌, ◌*◌, ◌%◌, ◌^◌, String, Bool, true, false, not, ◌&&◌, ◌||◌, Option, none,
  some, [], ◌∷◌, ◌==◌, blank, lookup, ltb, eqb, if◌then◌else◌, is_some, fenced, invalid, Fallible,
  ok, ◌>>=◌, ◌>>◌, refuse, or_fail, pos, negsuc, ltb_ℤ, leb_ℤ, join, decimal,
}
use durable_agent_handoff.Types.{
  Time, after, ResultStatus, DecisionOutcome, MessageState, Workflow, Session, Activity,
  WorkerResult, Attempt, Result, TurnDecision, Message, State,
}
use durable_agent_handoff.Environment.{Environment, stable_id}
use durable_agent_handoff.Events.{DomainEvent}
use durable_agent_handoff.Queries.{
  result_for_activity, attempt_has_exit, worker_result_for_attempt, runs_as_goal,
  next_activity_generation, next_uint64,
}
use durable_agent_handoff.Queries.Ordered.{turns_for_node, existing_continuation}
use durable_agent_handoff.Commands.{Decision}

pub record DecideTurnInput : Type 0 where
  pub activity_id : String
  pub expected_generation : ℕ
  pub attempt_id : String
  pub decision : TurnDecision
  pub idempotency_key : String

abbrev pub is_continuing : DecisionOutcome → Bool
is_continuing DecisionOutcome.continue = true
is_continuing _ = false

abbrev pub is_escalating : DecisionOutcome → Bool
is_escalating DecisionOutcome.escalate = true
is_escalating _ = false

abbrev pub is_known_outcome : DecisionOutcome → Bool
is_known_outcome DecisionOutcome.accept = true
is_known_outcome DecisionOutcome.continue = true
is_known_outcome DecisionOutcome.escalate = true
is_known_outcome _ = false

unfoldable pub check_decision : Workflow → TurnDecision → Fallible (Unit {0})
check_decision w d = do
  refuse (blank d.model || not (d.model == w.evaluator_model) || blank d.reason)
      (invalid "decision does not match this goal")
  refuse (not (is_known_outcome d.outcome)) (invalid "unsupported turn decision")
  refuse (is_escalating d.outcome && (blank d.blocker_kind || blank d.question))
      (invalid "human escalation requires a typed blocker and concrete question")

-- A goal at its turn limit does not continue: it escalates.
unfoldable pub limit_turns : Workflow → ℕ → TurnDecision → TurnDecision
limit_turns w turns d =
    if is_continuing d.outcome && ltb_ℤ (pos 0) w.max_turns && leb_ℤ w.max_turns (pos turns)
    then record d {
      outcome = DecisionOutcome.escalate;
      reason =
          join "Turn limit reached after "
            (join (decimal turns) (join " turns. Last decision: " d.reason));
      blocker_kind = "budget";
      question = "Should this goal receive a larger turn limit?";
    }
    else d

-- The status, the blocker kind and the question of the result.
unfoldable pub decided_fields : WorkerResult → TurnDecision → ResultStatus × String × String
decided_fields r d = elim d.outcome [
  | DecisionOutcome.accept ↦ (ResultStatus.completed, "", "")
  | DecisionOutcome.continue ↦ (ResultStatus.continue, "", "")
  | DecisionOutcome.escalate ↦ (ResultStatus.needs_human, d.blocker_kind, d.question)
  | _ ↦ (r.status, r.blocker_kind, r.question)
]

unfoldable pub decided_result :
    Environment → Activity → Attempt → WorkerResult → TurnDecision → Time → Result
decided_result env activity attempt r d now = record {
  id = stable_id env "result" activity.id;
  workflow_id = activity.workflow_id;
  node_id = activity.node_id;
  activity_id = activity.id;
  attempt_id = attempt.id;
  generation = activity.generation;
  status = (decided_fields r d).0;
  summary = d.reason;
  blocker_kind = (decided_fields r d).1;
  question = (decided_fields r d).2;
  decision = d.outcome;
  decided_by = d.model;
  created_at = now;
}

-- now.Add of a duration, which an int64 holds: the upper half of its values is negative. A time before
-- the zero time is the zero time here.
abbrev add_duration : Time → ℕ → Time
add_duration now bits = if ltb bits (2 ^ 63) then now + bits else now - (2 ^ 64 - bits)

-- now.Add of the wake interval times a second, in nanoseconds
unfoldable pub wake_time : Workflow → Time → Option Time
wake_time w now = elim w.wake_interval_seconds [
  | pos zero ↦ none
  | pos (suc n) ↦ some (add_duration now (suc n * 1000000000 % 2 ^ 64))
  | negsuc n ↦ none
]

unfoldable pub continuation_activity :
    Environment → DecideTurnInput → State → Workflow → Activity → TurnDecision → Time → Activity
unfolding wake_time
continuation_activity env i s w activity d now = record {
  id = stable_id env "activity" (join i.idempotency_key "/continuation");
  workflow_id = activity.workflow_id;
  node_id = activity.node_id;
  session_id = activity.session_id;
  generation = next_activity_generation s activity.node_id (next_uint64 activity.generation);
  parent_activity_id = activity.id;
  prompt = d.reason;
  dependency_bindings = activity.dependency_bindings;
  not_before = wake_time w now;
  created_at = now;
}

unfoldable pub continuation_message :
    Environment → DecideTurnInput → Session → TurnDecision → Time → Message
continuation_message env i session d now = record {
  id = stable_id env "message" (join i.idempotency_key "/continuation");
  session_id = session.id;
  activity_id = stable_id env "activity" (join i.idempotency_key "/continuation");
  attempt_id = "";
  body = d.reason;
  from = join "supervisor:evaluator/" d.model;
  state = MessageState.queued;
  delivery_generation = 0;
  created_at = now;
  settled_at = 0;
}

-- A reply that came while the turn ran is the continuation; otherwise there is a new one.
unfoldable pub continue_turn :
    Environment
    → DecideTurnInput
    → State
    → Workflow
    → Session
    → Activity
    → TurnDecision
    → DomainEvent
    → Time
    → Decision
continue_turn env i s w session activity d created now = do
  refuse (session.imported_unresolved || blank session.native.id)
      (invalid "continuing a goal requires an exact bound native Session")
  elim (existing_continuation s activity) [
    | some queued ↦ ok (created ∷ [], queued.id)
    | none ↦ ok (
      created
          ∷ DomainEvent.activity_queued (some (continuation_activity env i s w activity d now))
          ∷ DomainEvent.message_queued (some (continuation_message env i session d now))
          ∷ [],
      stable_id env "activity" (join i.idempotency_key "/continuation"),
    )
  ]

unfoldable pub is_stale : DecideTurnInput → State → Activity → Attempt → Bool
is_stale i s activity attempt =
    not (eqb activity.generation i.expected_generation)
    || not (attempt.activity_id == activity.id)
    || not (eqb attempt.activity_generation activity.generation)
    || is_some (result_for_activity s activity.id)
    || not (attempt_has_exit attempt)

unfoldable pub decide_turn : Environment → DecideTurnInput → State → Time → Decision
decide_turn env i s now = do
  activity ← or_fail (lookup i.activity_id s.activities) fenced
  attempt ← or_fail (lookup i.attempt_id s.attempts) fenced
  refuse (is_stale i s activity attempt) fenced
  r ← or_fail (worker_result_for_attempt attempt) (invalid "turn has no worker result")
  w ←
      or_fail (lookup activity.workflow_id s.workflows)
        (invalid "decision does not match this goal")
  refuse (not (runs_as_goal (some w))) (invalid "decision does not match this goal")
  session ←
      or_fail (lookup activity.session_id s.sessions) (invalid "decision does not match this goal")
  check_decision w i.decision
  let d = limit_turns w (turns_for_node s activity.workflow_id activity.node_id) i.decision
  let created = DomainEvent.result_created (some (decided_result env activity attempt r d now))
  if is_continuing d.outcome
      then continue_turn env i s w session activity d created now
      else ok (created ∷ [], "")
