-- ===== src/Evaluator.antt =====
-- Evaluate and validateDecision of internal/evaluator/openrouter.go. What stands between them, from
-- buildRequest over the HTTP exchange to parseResponse, is an argument.
pub mod Accepted
use durable_agent_handoff.Prelude.{
  String, Bool, true, false, not, ◌||◌, List, ◌==◌, blank, trim_space, if◌then◌else◌, invalid,
  Fallible, ok, ◌>>=◌, ◌>>◌, refuse,
}
use durable_agent_handoff.Types.{ResultStatus, WorkerResult, TurnDecision}
use durable_agent_handoff.Commands.Turn.{is_escalating, is_known_outcome}

pub data Mode : Type 0 where
  -- the empty text
  unset structured tool_call : Mode
  other_mode : String → Mode

pub record Request : Type 0 where
  pub model : String
  pub goal : String
  pub prompt : String
  pub supervisor_context : String
  pub publication : String
  pub turn : WorkerResult
  pub evidence : List String

-- Whether a worker's status is a blank text.
abbrev pub is_blank_status : ResultStatus → Bool
is_blank_status (ResultStatus.other_status s) = blank s
is_blank_status _ = false

unfoldable pub validate_decision : TurnDecision → Fallible (Unit {0})
validate_decision d = do
  refuse (not (is_known_outcome d.outcome)) (invalid "evaluator returned unsupported outcome %q")
  refuse (blank d.reason) (invalid "evaluator returned an empty reason")
  if is_escalating d.outcome
      then refuse (blank d.blocker_kind || blank d.question)
          (invalid "evaluator escalation omitted blocker kind or question")
      else refuse (not (d.blocker_kind == "") || not (d.question == ""))
          (invalid "non-escalation evaluator decision included blocker fields")

abbrev pub chosen_model : String → String
chosen_model m = if trim_space m == "" then "deepseek/deepseek-v4-flash-0731" else trim_space m

abbrev pub chosen_mode : Mode → Mode
chosen_mode Mode.unset = Mode.tool_call
chosen_mode mode = mode

abbrev pub is_supported : Mode → Bool
is_supported Mode.structured = true
is_supported Mode.tool_call = true
is_supported _ = false

-- A decoded decision with the model asked, and without the fields that only an escalation has.
abbrev pub settle_decision : String → TurnDecision → TurnDecision
settle_decision m d =
    if is_escalating d.outcome
    then record d { model = m }
    else record d { model = m; blocker_kind = ""; question = "" }

abbrev pub received : String → TurnDecision → Fallible TurnDecision
received m d = validate_decision (settle_decision m d) >> ok (settle_decision m d)

-- The key and the mode of an evaluator, and what the model answers to a request.
unfoldable pub evaluate :
    (api_key : String)
    → Mode
    → (Mode → String → Request → Fallible TurnDecision)
    → Request
    → Fallible TurnDecision
evaluate api_key mode ask r = do
  refuse (blank api_key) (invalid "OPENROUTER_API_KEY is required to decide goal turns")
  refuse (blank r.goal || blank r.prompt || is_blank_status r.turn.status || blank r.turn.summary)
      (invalid "a decision requires the goal, prompt, and worker turn")
  refuse (not (is_supported (chosen_mode mode))) (invalid "unsupported evaluator mode %q")
  ask (chosen_mode mode) (chosen_model r.model) r >>= received (chosen_model r.model)
