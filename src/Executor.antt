-- ===== src/Executor.antt =====
-- The reads of internal/executor/executor.go: which runtime an activity is launched with, and what
-- the executor asks of the state about it. Processes and their output are not modelled.
pub mod Selection
use durable_agent_handoff.Environment.{nul}
use durable_agent_handoff.Commands.Start.Ladder.{sandbox_text}
use durable_agent_handoff.Prelude.{
  String, Bool, not, ◌&&◌, ◌||◌, Option, none, some, List, [], ◌∷◌, ◌==◌, lookup, values, eqb,
  if◌then◌else◌, is_some, any, find, fenced, invalid, Fallible, ok, ◌>>=◌, ◌>>◌, refuse, or_fail,
  join,
}
use durable_agent_handoff.Types.{is_result, RuntimeSpec, WorkSpec, Control, State}
use durable_agent_handoff.Queries.{has_provider_unavailable, has_turn_started}
use durable_agent_handoff.Queries.Ordered.{accepted_control}

-- The fields, with NUL between them.
unfoldable pub runtime_key : RuntimeSpec → String
runtime_key r = join r.name (
    join nul (
      join r.executable (
        join nul (
          join r.model (
            join nul
              (join r.effort (join nul (join (sandbox_text r.sandbox) (join nul r.arguments)))))))))

-- Whether the key is in usedUnavailable.
unfoldable pub is_used_unavailable : State → String → String → Bool
is_used_unavailable s activity_id key =
    any
      (λ a.
        a.activity_id == activity_id
        && (has_provider_unavailable a && runtime_key a.runtime == key))
      (values s.attempts)

-- candidates[start:], where start is the first candidate of the session's runtime, or 0
abbrev pub from_name : String → List RuntimeSpec → Option (List RuntimeSpec)
from_name name [] = none
from_name name (c ∷ cs) = if c.name == name then some (c ∷ cs) else from_name name cs

abbrev pub or_all : Option (List RuntimeSpec) → List RuntimeSpec → List RuntimeSpec
or_all none all = all
or_all (some cs) all = cs

unfoldable pub candidates_from : WorkSpec → String → List RuntimeSpec
candidates_from work session_runtime =
    or_all (from_name session_runtime (work.runtime ∷ work.fallbacks))
      (work.runtime ∷ work.fallbacks)

unfoldable pub select_runtime : WorkSpec → State → String → String → Fallible RuntimeSpec
select_runtime work s activity_id session_runtime =
    or_fail
      (find (λ c. not (is_used_unavailable s activity_id (runtime_key c)))
        (candidates_from work session_runtime))
      (invalid "all runtime fallback candidates are provider-unavailable")

unfoldable pub activity_has_provider_unavailable : State → String → Bool
activity_has_provider_unavailable s activity_id =
    any (λ a. a.activity_id == activity_id && has_provider_unavailable a) (values s.attempts)

-- A result of the activity, or a worker's result that is not decided yet.
unfoldable pub activity_has_result : State → String → Bool
activity_has_result s activity_id =
    any (λ r. r.activity_id == activity_id) (values s.results)
    || any
        (λ a.
          a.activity_id == activity_id
          && any (λ m. is_result m.kind && is_some m.result) a.milestones)
        (values s.attempts)

-- The accepted control of a launch, and whether its turn has started.
unfoldable pub pending_control : State → String → String → Fallible (Option Control × Bool)
pending_control s activity_id attempt_id = do
  a ← or_fail (lookup attempt_id s.attempts) fenced
  activity ← or_fail (lookup activity_id s.activities) fenced
  refuse (not (a.activity_id == activity.id) || not (eqb a.activity_generation activity.generation))
      fenced
  ok (accepted_control s activity a, has_turn_started a)
