-- ===== src/Tests/Choices.antt =====
-- The choices of the executor and of the evaluator at concrete inputs.
use durable_agent_handoff.Prelude.{
  ◌≡◌, refl, ◌↔◌, [], ◌∷◌, is_space, blank, trim_space, values, ok, join,
}
use durable_agent_handoff.Types.{
  MilestoneKind, ResultStatus, DecisionOutcome, RuntimeSpec, WorkSpec, TurnDecision, State,
}
use durable_agent_handoff.Commands.Start.Ladder.{sandbox_text}
use durable_agent_handoff.Queries.{has_provider_unavailable, runs_as_goal}
use durable_agent_handoff.Executor.{
  runtime_key, is_used_unavailable, candidates_from, select_runtime,
}
use durable_agent_handoff.Executor.Selection.{IsChosen, select_runtime-IsChosen}
use durable_agent_handoff.Commands.Turn.{check_decision}
use durable_agent_handoff.Evaluator.{Mode, Request, validate_decision, evaluate}
use durable_agent_handoff.Evaluator.Accepted.{evaluate-check_decision}
use durable_agent_handoff.Tests.Fixtures.{
  goal_workflow, attempt_with, milestone_of, codex, node_named, idle,
}

abbrev claude : RuntimeSpec
claude = record codex { name = "claude" }

abbrev two_runtimes : WorkSpec
two_runtimes = record (node_named "n1" []).work { fallbacks = claude ∷ [] }

abbrev refused : State
refused = record idle {
  attempts = ("t1", attempt_with (milestone_of MilestoneKind.provider_unavailable ∷ [])) ∷ [];
}

select_runtime-IsChosen_example : IsChosen two_runtimes refused "a1" claude
unfolding select_runtime candidates_from is_used_unavailable runtime_key sandbox_text
    has_provider_unavailable join values
select_runtime-IsChosen_example =
    select_runtime-IsChosen two_runtimes refused "a1" "codex" claude refl

abbrev accepted : TurnDecision
accepted = record {
  outcome = DecisionOutcome.accept;
  reason = "done";
  model = "";
  blocker_kind = "none";
  question = "";
}

abbrev request : Request
request = record {
  model = "judge";
  goal = "work";
  prompt = "do it";
  supervisor_context = "";
  publication = "";
  turn = record {
    status = ResultStatus.completed;
    summary = "did it";
    blocker_kind = "";
    question = "";
  };
  evidence = [];
}

evaluate-check_decision_example :
    (check_decision goal_workflow (record accepted { model = "judge"; blocker_kind = "" }) ≡ ok tt)
    ↔ (trim_space "judge" ≡ "judge")
unfolding evaluate validate_decision runs_as_goal blank is_space trim_space
evaluate-check_decision_example =
    evaluate-check_decision goal_workflow "key" Mode.unset (λ mode model r. ok accepted) request
      (record accepted { model = "judge"; blocker_kind = "" }) refl refl refl
