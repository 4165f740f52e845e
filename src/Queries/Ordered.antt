-- ===== src/Queries/Ordered.antt =====
-- The ordered reads of internal/supervisor/commands.go and internal/supervisor/projection.go. The
-- sort of sort.Slice is an insertion sort; what compares equal both ways keeps its place.
use durable_agent_handoff.Prelude.{
  ℕ, String, Bool, true, false, not, ◌&&◌, ◌||◌, Option, none, some, List, [], ◌∷◌, ◌==◌, str_ltb,
  lookup, values, ltb, eqb, if◌then◌else◌, is_some, is_none, count, keep,
}
use durable_agent_handoff.Types.{
  Time, before, Activity, WorkerResult, Attempt, Message, Control, State,
}
use durable_agent_handoff.Queries.{result_for_activity, worker_result_for_attempt}

module _ {A : Type 0} (less : A → A → Bool) where
  unfoldable pub insert_by : A → List A → List A
  insert_by x [] = x ∷ []
  insert_by x (y ∷ ys) = if less y x then y ∷ insert_by x ys else x ∷ y ∷ ys

  unfoldable pub sort_by : List A → List A
  unfolding insert_by
  sort_by [] = []
  sort_by (x ∷ xs) = insert_by x (sort_by xs)

abbrev pub created_before : Time → String → Time → String → Bool
created_before s i t j = before s t || (eqb s t && str_ltb i j)

unfoldable pub ordered_activities : State → String → List Activity
unfolding sort_by
ordered_activities s workflow_id =
    sort_by (λ a b. created_before a.created_at a.id b.created_at b.id)
      (keep (λ a. a.workflow_id == workflow_id) (values s.activities))

unfoldable pub ordered_attempts_for_activity : State → String → List Attempt
unfolding sort_by
ordered_attempts_for_activity s activity_id =
    sort_by (λ a b. ltb a.ordinal b.ordinal)
      (keep (λ a. a.activity_id == activity_id) (values s.attempts))

unfoldable pub belongs_to : State → String → Attempt → Bool
belongs_to s workflow_id a = elim (lookup a.activity_id s.activities) [
  | none ↦ false
  | some b ↦ b.workflow_id == workflow_id
]

unfoldable pub ordered_attempts : State → String → List Attempt
unfolding sort_by belongs_to
ordered_attempts s workflow_id =
    sort_by (λ a b. created_before a.created_at a.id b.created_at b.id)
      (keep (belongs_to s workflow_id) (values s.attempts))

unfoldable pub ordered_messages : State → List Message
unfolding sort_by
ordered_messages s =
    sort_by (λ a b. created_before a.created_at a.id b.created_at b.id) (values s.messages)

-- The first payload among the attempts' result milestones.
unfoldable pub first_worker_result : List Attempt → Option WorkerResult
first_worker_result [] = none
first_worker_result (a ∷ rest) = elim (worker_result_for_attempt a) [
  | none ↦ first_worker_result rest
  | some r ↦ some r
]

unfoldable pub worker_result_for_activity : State → String → Option WorkerResult
unfolding first_worker_result
worker_result_for_activity s activity_id =
    first_worker_result (ordered_attempts_for_activity s activity_id)

unfoldable pub turns_for_node : State → String → String → ℕ
turns_for_node s workflow_id node_id =
    count
      (λ a.
        a.workflow_id == workflow_id
        && a.node_id == node_id
        && is_some (worker_result_for_activity s a.id))
      (values s.activities)

-- existingContinuation: an unfinished activity of the same session and node
unfoldable pub may_continue : State → Activity → Activity → Bool
may_continue s predecessor a =
    not (a.id == predecessor.id)
    && a.workflow_id == predecessor.workflow_id
    && a.node_id == predecessor.node_id
    && a.session_id == predecessor.session_id
    && is_none (result_for_activity s a.id)

abbrev pub comes_first : Activity → Option Activity → Bool
comes_first a none = true
comes_first a (some b) =
    ltb a.generation b.generation
    || (eqb a.generation b.generation && before a.created_at b.created_at)

unfoldable pub select_first : Option Activity → List Activity → Option Activity
select_first best [] = best
select_first best (a ∷ rest) = select_first (if comes_first a best then some a else best) rest

unfoldable pub existing_continuation : State → Activity → Option Activity
unfolding may_continue select_first
existing_continuation s predecessor =
    select_first none (keep (may_continue s predecessor) (values s.activities))

-- fallbackChildForActivity: the oldest child on another session
abbrev pub is_older : Activity → Option Activity → Bool
is_older a none = true
is_older a (some b) = created_before a.created_at a.id b.created_at b.id

unfoldable pub select_oldest : Option Activity → List Activity → Option Activity
select_oldest best [] = best
select_oldest best (a ∷ rest) = select_oldest (if is_older a best then some a else best) rest

unfoldable pub fallback_child : State → String → Option Activity
unfolding select_oldest
fallback_child s parent_id = elim (lookup parent_id s.activities) [
  | none ↦ none
  | some parent ↦ select_oldest none (
      keep (λ a. a.parent_activity_id == parent_id && not (a.session_id == parent.session_id))
        (values s.activities))
]

-- AcceptedControlForAttempt
unfoldable pub controls_attempt : Activity → Attempt → Control → Bool
controls_attempt activity attempt c =
    c.accepted
    && c.activity_id == activity.id
    && eqb c.expected_generation activity.generation
    && c.expected_attempt_id == attempt.id
    && eqb attempt.activity_generation activity.generation

abbrev pub first {ℓ} : {A : Type ℓ} → List A → Option A
first [] = none
first (x ∷ xs) = some x

unfoldable pub accepted_control : State → Activity → Attempt → Option Control
unfolding controls_attempt sort_by
accepted_control s activity attempt = first (
    sort_by (λ a b. created_before a.created_at a.id b.created_at b.id)
      (keep (controls_attempt activity attempt) (values s.controls)))
