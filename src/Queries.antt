-- ===== src/Queries.antt =====
-- The pure reads that the commands and the projection share, of internal/supervisor/commands.go and
-- internal/supervisor/projection.go: results, attempts and milestones.
pub mod Ordered
pub mod Sorting
use durable_agent_handoff.Prelude.{
  ℕ, ◌+◌, ◌%◌, ◌^◌, String, Bool, true, false, not, ◌&&◌, ◌||◌, Option, none, some, List, [], ◌∷◌,
  ◌==◌, blank, str_ltb, values, ltb, leb, eqb, if◌then◌else◌, any, count, find, invalid, Fallible,
  ok, ◌>>=◌, or_fail,
}
use durable_agent_handoff.Types.{
  is_turn_started, is_result, is_exit, is_provider_unavailable, is_completed, Workflow,
  ResultBinding, Activity, WorkerResult, Attempt, Result, Message, State,
}

-- hasMilestone, hasProviderUnavailable, attemptHasExit and attemptTerminal
unfoldable pub has_provider_unavailable : Attempt → Bool
has_provider_unavailable a = any (λ m. is_provider_unavailable m.kind) a.milestones

unfoldable pub has_turn_started : Attempt → Bool
has_turn_started a = any (λ m. is_turn_started m.kind) a.milestones

unfoldable pub attempt_has_exit : Attempt → Bool
attempt_has_exit a = any (λ m. is_exit m.kind) a.milestones

unfoldable pub result_for_activity : State → String → Option Result
result_for_activity s activity_id = find (λ r. r.activity_id == activity_id) (values s.results)

-- Whether a result takes the place of the one selected so far.
unfoldable pub supersedes : Result → Option Result → Bool
supersedes r none = true
supersedes r (some best) =
    ltb best.generation r.generation || (eqb r.generation best.generation && str_ltb r.id best.id)

unfoldable pub is_result_of : String → String → Result → Bool
is_result_of workflow_id node_id r =
    r.workflow_id == workflow_id && r.node_id == node_id && is_completed r.status

unfoldable pub latest_result : String → String → Option Result → List Result → Option Result
unfolding supersedes is_result_of
latest_result workflow_id node_id best [] = best
latest_result workflow_id node_id best (r ∷ rs) =
    latest_result workflow_id node_id
      (if is_result_of workflow_id node_id r && supersedes r best then some r else best) rs

unfoldable pub latest_result_for_node : State → String → String → Option Result
unfolding latest_result
latest_result_for_node s workflow_id node_id =
    latest_result workflow_id node_id none (values s.results)

-- The first result milestone decides, also where it carries no payload.
unfoldable pub worker_result_for_attempt : Attempt → Option WorkerResult
worker_result_for_attempt a = elim (find (λ m. is_result m.kind) a.milestones) [
  | none ↦ none
  | some m ↦ m.result
]

unfoldable pub runs_as_goal : Option Workflow → Bool
runs_as_goal none = false
runs_as_goal (some w) = not (blank w.evaluator_model)

abbrev pub is_for : String → Attempt → Bool
is_for activity_id a = a.activity_id == activity_id

-- A launch counts as a turn if it started one and the provider was there.
unfoldable pub took_turn : Attempt → Bool
unfolding has_turn_started has_provider_unavailable
took_turn a = has_turn_started a && not (has_provider_unavailable a)

unfoldable pub launches_of : State → String → ℕ
launches_of s activity_id = count (is_for activity_id) (values s.attempts)

unfoldable pub turns_of : State → String → ℕ
unfolding took_turn
turns_of s activity_id = count (λ a. is_for activity_id a && took_turn a) (values s.attempts)

-- uint64 addition of one
abbrev pub next_uint64 : ℕ → ℕ
next_uint64 n = (n + 1) % 2 ^ 64

unfoldable pub raise_generation : String → ℕ → List Activity → ℕ
raise_generation node_id g [] = g
raise_generation node_id g (a ∷ rest) =
    raise_generation node_id
      (if a.node_id == node_id && leb g a.generation then next_uint64 a.generation else g) rest

unfoldable pub next_activity_generation : State → String → ℕ → ℕ
unfolding raise_generation
next_activity_generation s node_id minimum = raise_generation node_id minimum (values s.activities)

unfoldable pub raise_ordinal : String → ℕ → List Attempt → ℕ
raise_ordinal activity_id n [] = n
raise_ordinal activity_id n (a ∷ rest) =
    raise_ordinal activity_id (if is_for activity_id a && leb n a.ordinal then a.ordinal + 1 else n)
      rest

unfoldable pub raise_delivery : String → ℕ → List Message → ℕ
raise_delivery session_id g [] = g
raise_delivery session_id g (m ∷ ms) =
    raise_delivery session_id
      (if m.session_id == session_id && leb g m.delivery_generation
        then next_uint64 m.delivery_generation
        else g)
      ms

unfoldable pub next_delivery_generation : State → String → ℕ
unfolding raise_delivery
next_delivery_generation s session_id = raise_delivery session_id 1 (values s.messages)

-- dependencyBindings: the latest completed result of each dependency
unfoldable pub dependency_bindings : State → String → List String → Fallible (List ResultBinding)
dependency_bindings s workflow_id [] = ok []
dependency_bindings s workflow_id (d ∷ ds) =
    or_fail (latest_result_for_node s workflow_id d) (invalid "dependency has no immutable result")
    >>= λ r. dependency_bindings s workflow_id ds >>= λ rest.
        ok (record { dependency_node_id = d; result_id = r.id } ∷ rest)
