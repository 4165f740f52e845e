-- ===== src/Commands/Turn/Outcomes.antt =====
-- What a turn decision does, of decideTurnCommand: the result that it creates, and the turn limit.
use durable_agent_handoff.Prelude.{
  String, ◌≡◌, refl, sym, subst, inl, inr, Bool, true, false, not, ◌&&◌, ◌||◌, none, some, List, [],
  ◌∷◌, arith, eq_iff, is_space, blank, lookup, if◌then◌else◌, Bool-cases, Option-cases, is_some,
  any, ok, pos, ltb_ℤ, leb_ℤ,
}
use durable_agent_handoff.Types.{
  Time, is_completed, is_continue, is_needs_human, DecisionOutcome, Workflow, Session, Activity,
  WorkerResult, Attempt, Result, TurnDecision, State,
}
use durable_agent_handoff.Environment.{Environment}
use durable_agent_handoff.Events.{DomainEvent}
use durable_agent_handoff.Queries.{attempt_has_exit, worker_result_for_attempt, result_for_activity}
use durable_agent_handoff.Queries.Ordered.{existing_continuation, turns_for_node}
use durable_agent_handoff.Commands.Turn.{
  DecideTurnInput, is_continuing, is_escalating, check_decision, limit_turns, decided_fields,
  decided_result, continue_turn, continuation_activity, continuation_message, is_stale, decide_turn,
}

-- The parts that a decision reads, and the decision it comes to at the turn limit.
pub record IsDecided (env : Environment) (i : DecideTurnInput) (s : State) (now : Time)
    (d : List DomainEvent × String) : Type 0 where
  pub activity : Activity
  pub attempt : Attempt
  pub worker : WorkerResult
  pub workflow : Workflow
  pub session : Session
  pub activity_found : lookup i.activity_id s.activities ≡ some activity
  pub attempt_found : lookup i.attempt_id s.attempts ≡ some attempt
  pub worker_found : worker_result_for_attempt attempt ≡ some worker
  pub workflow_found : lookup activity.workflow_id s.workflows ≡ some workflow
  pub fresh : is_stale i s activity attempt ≡ false
  pub checked : check_decision workflow i.decision ≡ ok tt
  pub decision : TurnDecision
  pub limited :
      decision
      ≡ limit_turns workflow (turns_for_node s activity.workflow_id activity.node_id) i.decision
  pub outcome :
      (if is_continuing decision.outcome
        then continue_turn env i s workflow session activity decision
            (DomainEvent.result_created
              (some (decided_result env activity attempt worker decision now)))
            now
        else ok (
          DomainEvent.result_created
                (some (decided_result env activity attempt worker decision now))
              ∷ [],
          "",
        ))
      ≡ ok d

pub open_decision :
    (env : Environment) (i : DecideTurnInput) (s : State) (now : Time)
    (d : List DomainEvent × String)
    → decide_turn env i s now ≡ ok d
    → IsDecided env i s now d
unfolding decide_turn
open_decision env i s now d h = elim (Option-cases (lookup i.activity_id s.activities)) [
  | inl z ↦ absurd (ground arith)
  | inr (b, hb) ↦ elim (Option-cases (lookup i.attempt_id s.attempts)) [
    | inl z ↦ absurd (ground arith)
    | inr (a, ha) ↦ elim (Option-cases (lookup b.workflow_id s.workflows)) [
      | inl z ↦ absurd (ground arith)
      | inr (w, hw) ↦ elim (Option-cases (worker_result_for_attempt a)) [
        | inl z ↦ absurd (ground arith)
        | inr (r, hr) ↦ elim (Option-cases (lookup b.session_id s.sessions)) [
          | inl z ↦ absurd (ground arith)
          | inr (x, hx) ↦ record {
            activity = b;
            attempt = a;
            worker = r;
            workflow = w;
            session = x;
            activity_found = hb;
            attempt_found = ha;
            worker_found = hr;
            workflow_found = hw;
            fresh = ground arith;
            checked = ground arith;
            decision = limit_turns w (turns_for_node s b.workflow_id b.node_id) i.decision;
            limited = refl;
            outcome = ground arith;
          }
        ]
      ]
    ]
  ]
]

-- maxTurns > 0 && turns >= maxTurns
abbrev pub at_limit : State → Workflow → Activity → Bool
at_limit s w b =
    ltb_ℤ (pos 0) w.max_turns && leb_ℤ w.max_turns (pos (turns_for_node s b.workflow_id b.node_id))

abbrev pub is_accepting : DecisionOutcome → Bool
is_accepting DecisionOutcome.accept = true
is_accepting _ = false

-- The attempt whose turn is decided: of the activity as it is expected, with a worker's result and an
-- exit.
abbrev pub IsTurnOf : DecideTurnInput → Activity → Attempt → Type 0
IsTurnOf i b a =
    (b.generation ≡ i.expected_generation)
    × (a.activity_id ≡ b.id)
    × (a.activity_generation ≡ b.generation)
    × (is_some (worker_result_for_attempt a) ≡ true)
    × (attempt_has_exit a ≡ true)

-- What the result of a decision says.
pub record IsResultOf (s : State) (i : DecideTurnInput) (w : Workflow) (b : Activity) (a : Attempt)
    (r : Result) : Type 0 where
  pub activity : r.activity_id ≡ b.id
  pub attempt : r.attempt_id ≡ a.id
  pub turn : IsTurnOf i b a
  pub first : result_for_activity s b.id ≡ none
  pub accepted : is_completed r.status ≡ is_accepting i.decision.outcome
  pub continued : is_continue r.status ≡ (is_continuing i.decision.outcome && not (at_limit s w b))
  pub escalated :
      is_needs_human r.status
      ≡ (is_escalating i.decision.outcome || (is_continuing i.decision.outcome && at_limit s w b))
  pub asked : is_needs_human r.status ≡ true → (blank r.blocker_kind || blank r.question) ≡ false

budget_question :
    (blank "budget" ≡ false) × (blank "Should this goal receive a larger turn limit?" ≡ false)
unfolding blank is_space
budget_question = (refl, refl)

decided_result-IsResultOf :
    (env : Environment) (i : DecideTurnInput) (s : State) (now : Time) (w : Workflow) (b : Activity)
    (a : Attempt) (r : WorkerResult)
    → worker_result_for_attempt a ≡ some r
    → is_stale i s b a ≡ false
    → check_decision w i.decision ≡ ok tt
    → IsResultOf s i w b a (
        decided_result env b a r
          (limit_turns w (turns_for_node s b.workflow_id b.node_id) i.decision)
          now)
unfolding is_stale check_decision limit_turns decided_result decided_fields
decided_result-IsResultOf env i s now w b a r found st ch = record {
  activity = refl;
  attempt = refl;
  turn = (
    ground arith,
    (eq_iff a.activity_id b.id).0 (ground arith),
    ground arith,
    ground (arith, found),
    ground arith,
  );
  first = ground arith;
  accepted = ground arith;
  continued = ground arith;
  escalated = ground arith;
  asked = λ h. ground (arith, budget_question.0, budget_question.1);
}

abbrev pub creates_result : DomainEvent → Bool
creates_result (DomainEvent.result_created r) = true
creates_result _ = false

first_event :
    (env : Environment) (i : DecideTurnInput) (s : State) (now : Time)
    (d : List DomainEvent × String) (w : Workflow) (x : Session) (b : Activity) (t : TurnDecision)
    (created : DomainEvent)
    → (if is_continuing t.outcome
        then continue_turn env i s w x b t created now
        else ok (created ∷ [], ""))
      ≡ ok d
    → (rest : List DomainEvent) × (d.0 ≡ created ∷ rest) × (any creates_result rest ≡ false)
unfolding continue_turn
first_event env i s now d w x b t created h = elim (Bool-cases (is_continuing t.outcome)) [
  | inr stops ↦ ([], ground (arith, stops), refl)
  | inl goes ↦ elim (Option-cases (existing_continuation s b)) [
    | inr (queued, e) ↦ ([], ground (arith, goes, e), refl)
    | inl e ↦ (
      DomainEvent.activity_queued (some (continuation_activity env i s w b t now))
          ∷ DomainEvent.message_queued (some (continuation_message env i x t now))
          ∷ [],
      ground (arith, goes, e),
      refl,
    )
  ]
]

-- A decision that is accepted creates one result, the first of its activity, for the attempt that it
-- names, which is the activity's in its generation, has a worker's result and has exited. The result is completed where the evaluator accepts, continues where the evaluator continues below the
-- turn limit, and otherwise asks a human, with a blocker kind and a question.
pub decide_turn-result :
    (env : Environment) (i : DecideTurnInput) (s : State) (now : Time)
    (d : List DomainEvent × String)
    → decide_turn env i s now ≡ ok d
    → (w : Workflow) × (b : Activity) × (a : Attempt) × (r : Result) × (rest : List DomainEvent)
      × (lookup i.activity_id s.activities ≡ some b)
      × (lookup i.attempt_id s.attempts ≡ some a)
      × (lookup b.workflow_id s.workflows ≡ some w)
      × (d.0 ≡ DomainEvent.result_created (some r) ∷ rest)
      × (any creates_result rest ≡ false)
      × IsResultOf s i w b a r
decide_turn-result env i s now d h =
    let o = open_decision env i s now d h in
    let (rest, e, once) =
      first_event env i s now d o.workflow o.session o.activity o.decision
        (DomainEvent.result_created
          (some (decided_result env o.activity o.attempt o.worker o.decision now)))
        o.outcome in
    (
      o.workflow,
      o.activity,
      o.attempt,
      decided_result env o.activity o.attempt o.worker o.decision now,
      rest,
      o.activity_found,
      o.attempt_found,
      o.workflow_found,
      e,
      once,
      subst
          (λ t.
            IsResultOf s i o.workflow o.activity o.attempt
              (decided_result env o.activity o.attempt o.worker t now))
          (sym o.limited)
          (decided_result-IsResultOf env i s now o.workflow o.activity o.attempt o.worker
            o.worker_found o.fresh o.checked),
    )
