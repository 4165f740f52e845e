-- ===== src/Commands/Controls.antt =====
-- requestControlCommand and applyControlCommand of internal/supervisor/commands.go.
pub mod Single
use durable_agent_handoff.Prelude.{
  ℕ, String, Bool, false, not, ◌&&◌, ◌||◌, Option, none, some, [], ◌∷◌, ◌==◌, blank, lookup, eqb,
  if◌then◌else◌, is_some, fenced, control_already_accepted, invalid, ok, err, ◌>>=◌, ◌>>◌, refuse,
  or_fail,
}
use durable_agent_handoff.Types.{Time, is_zero, Activity, Attempt, Control, State}
use durable_agent_handoff.Environment.{Environment, stable_id}
use durable_agent_handoff.Events.{DomainEvent}
use durable_agent_handoff.Queries.{attempt_has_exit}
use durable_agent_handoff.Queries.Ordered.{accepted_control}
use durable_agent_handoff.Commands.{Decision}

pub record RequestControlInput : Type 0 where
  pub activity_id : String
  pub expected_generation : ℕ
  pub expected_attempt_id : String
  pub kind : String
  pub actor : String
  pub idempotency_key : String

pub record ApplyControlInput : Type 0 where
  pub control_id : String
  pub activity_id : String
  pub expected_generation : ℕ
  pub attempt_id : String
  pub idempotency_key : String

-- The activity and the attempt that the request names exactly, if both are there.
unfoldable pub exact_attempt : RequestControlInput → State → Option (Activity × Attempt)
exact_attempt i s = elim (lookup i.activity_id s.activities) [
  | none ↦ none
  | some activity ↦ elim (lookup i.expected_attempt_id s.attempts) [
    | none ↦ none
    | some attempt ↦
        if eqb activity.generation i.expected_generation
          && attempt.activity_id == activity.id
          && eqb attempt.activity_generation activity.generation
        then some (activity, attempt)
        else none
  ]
]

abbrev pub is_paused : State → Option Activity → Bool
is_paused s none = false
is_paused s (some activity) = is_some (lookup activity.workflow_id s.pauses)

abbrev pub is_live_pair : Option (Activity × Attempt) → Bool
is_live_pair none = false
is_live_pair (some (activity, attempt)) = not (attempt_has_exit attempt)

abbrev pub existing_control : State → Option (Activity × Attempt) → Option Control
existing_control s none = none
existing_control s (some (activity, attempt)) = accepted_control s activity attempt

unfoldable pub accepts : RequestControlInput → State → Bool
accepts i s =
    not (is_paused s (lookup i.activity_id s.activities)) && is_live_pair (exact_attempt i s)

unfoldable pub new_control : Environment → RequestControlInput → State → Time → Control
new_control env i s now = record {
  id = stable_id env "control" i.idempotency_key;
  kind = i.kind;
  actor = i.actor;
  activity_id = i.activity_id;
  expected_generation = i.expected_generation;
  expected_attempt_id = i.expected_attempt_id;
  accepted = accepts i s;
  reason =
      if accepts i s
      then ""
      else "activity is paused or generation or exact Attempt identity changed";
  applied_at = 0;
  created_at = now;
}

unfoldable pub request_control : Environment → RequestControlInput → State → Time → Decision
request_control env i s now = do
  refuse (not (i.kind == "stop") || blank i.actor)
      (invalid "control requires actor and supported kind")
  elim (existing_control s (exact_attempt i s)) [
    | some existing ↦ err (control_already_accepted existing.id)
    | none ↦ ok (
      DomainEvent.control_recorded (some (new_control env i s now)) ∷ [],
      stable_id env "control" i.idempotency_key,
    )
  ]

unfoldable pub apply_control : ApplyControlInput → State → Time → Decision
apply_control i s now = do
  control ← or_fail (lookup i.control_id s.controls) fenced
  activity ← or_fail (lookup i.activity_id s.activities) fenced
  attempt ← or_fail (lookup i.attempt_id s.attempts) fenced
  refuse
      (not control.accepted
        || not (is_zero control.applied_at)
        || not (control.activity_id == activity.id)
        || not (eqb control.expected_generation i.expected_generation)
        || not (control.expected_attempt_id == attempt.id)
        || not (attempt.activity_id == activity.id)
        || not (eqb attempt.activity_generation activity.generation))
      fenced
  ok (DomainEvent.control_applied control.id now ∷ [], control.id)
