-- ===== src/Evaluator/Accepted.antt =====
-- What the evaluator returns, against what DecideTurn asks of a decision.
use durable_agent_handoff.Prelude.{
  String, ◌≡◌, refl, sym, ap, ◌∙◌, subst, ◌↔◌, inl, inr, true, false, not, ◌||◌, some, arith, ◌==◌,
  eq_iff, eq_refl, is_space, blank, trim_space, Bool-cases, invalid, Fallible, ok, ◌>>=◌, ◌>>◌,
  refuse, >>=-eq-ok, >>-eq-ok,
}
use durable_agent_handoff.Types.{Workflow, TurnDecision}
use durable_agent_handoff.Queries.{runs_as_goal}
use durable_agent_handoff.Commands.Turn.{is_escalating, check_decision}
use durable_agent_handoff.Evaluator.{
  Mode, Request, chosen_model, chosen_mode, settle_decision, is_blank_status, is_supported,
  received, validate_decision, evaluate,
}

settle-model : (m : String) (d : TurnDecision) → (settle_decision m d).model ≡ m
settle-model m d = elim (Bool-cases (is_escalating d.outcome)) [
  | inl t ↦ ground arith
  | inr f ↦ ground arith
]

received-IsValid :
    (m : String) (a d : TurnDecision)
    → received m a ≡ ok d
    → (d.model ≡ m) × (validate_decision d ≡ ok tt)
received-IsValid m a d h =
    let (passed, valid, same) =
      >>=-eq-ok (validate_decision (settle_decision m a)) (λ _. ok (settle_decision m a)) h in
    let settled : settle_decision m a ≡ d = cc in
    subst (λ x. (x.model ≡ m) × (validate_decision x ≡ ok tt)) settled (settle-model m a, valid)

valid-checked :
    (w : Workflow) (d : TurnDecision)
    → blank w.evaluator_model ≡ false
    → d.model ≡ w.evaluator_model
    → validate_decision d ≡ ok tt
    → check_decision w d ≡ ok tt
unfolding validate_decision check_decision
valid-checked w d goal same valid =
    rw (same, goal, eq_refl w.evaluator_model) (ground (arith, valid))

chosen_model-own : (m : String) → trim_space m ≡ m → blank m ≡ false → chosen_model m ≡ m
unfolding blank
chosen_model-own m trimmed filled = elim (Bool-cases (m == "")) [
  | inl t ↦ absurd (ground (arith, sym (ap blank ((eq_iff m "").0 t)) ∙ filled))
  | inr f ↦ rw (trimmed, f) refl
]

chosen_model-trimmed : (m : String) → chosen_model m ≡ m → trim_space m ≡ m
unfolding trim_space blank is_space
chosen_model-trimmed m own = elim (Bool-cases (trim_space m == "")) [
  | inl t ↦
      let default : "deepseek/deepseek-v4-flash-0731" ≡ m = sym (rw t refl) ∙ own in
      subst (λ x. trim_space x ≡ x) default refl
  | inr f ↦ ground (arith, own, f)
]

-- What is returned names the model asked, and is valid.
evaluate-IsValid :
    (api_key : String) (mode : Mode) (ask : Mode → String → Request → Fallible TurnDecision)
    (r : Request) (d : TurnDecision)
    → evaluate api_key mode ask r ≡ ok d
    → (d.model ≡ chosen_model r.model) × (validate_decision d ≡ ok tt)
unfolding evaluate
evaluate-IsValid api_key mode ask r d returned =
    let model = chosen_model r.model in
    let answer = ask (chosen_mode mode) model r in
    let mode_known =
      refuse (not (is_supported (chosen_mode mode))) (invalid "unsupported evaluator mode %q") in
    let turn_given =
      refuse
        (blank r.goal || blank r.prompt || is_blank_status r.turn.status || blank r.turn.summary)
        (invalid "a decision requires the goal, prompt, and worker turn") in
    let key_given =
      refuse (blank api_key) (invalid "OPENROUTER_API_KEY is required to decide goal turns") in
    let after_key =
      >>-eq-ok key_given (turn_given >> (mode_known >> (answer >>= received model))) returned in
    let after_turn = >>-eq-ok turn_given (mode_known >> (answer >>= received model)) after_key in
    let (decision, answered, settled) =
      >>=-eq-ok answer (received model)
        (>>-eq-ok mode_known (answer >>= received model) after_turn) in
    received-IsValid model decision d settled

checked-model :
    (w : Workflow) (d : TurnDecision) → check_decision w d ≡ ok tt → d.model ≡ w.evaluator_model
unfolding check_decision
checked-model w d checked = (eq_iff d.model w.evaluator_model).0 (ground arith)

-- What the evaluator returns about the model of a goal passes DecideTurn's check of a decision exactly
-- if the model has no space at its ends.
pub evaluate-check_decision :
    (w : Workflow) (api_key : String) (mode : Mode)
    (ask : Mode → String → Request → Fallible TurnDecision) (r : Request) (d : TurnDecision)
    → runs_as_goal (some w) ≡ true
    → r.model ≡ w.evaluator_model
    → evaluate api_key mode ask r ≡ ok d
    → (check_decision w d ≡ ok tt) ↔ (trim_space w.evaluator_model ≡ w.evaluator_model)
evaluate-check_decision w api_key mode ask r d goal same returned =
    let (named, valid) = evaluate-IsValid api_key mode ask r d returned in
    let filled : blank w.evaluator_model ≡ false = unfold runs_as_goal in ground (arith, goal) in
    (
      (λ checked.
          chosen_model-trimmed w.evaluator_model
            (ap chosen_model (sym same) ∙ sym named ∙ checked-model w d checked)),
      λ trimmed.
          valid-checked w d filled
            (named ∙ ap chosen_model same ∙ chosen_model-own w.evaluator_model trimmed filled)
            valid,
    )
