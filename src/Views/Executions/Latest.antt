-- ===== src/Views/Executions/Latest.antt =====
-- The time of the last change that the view of an execution shows.
use durable_agent_handoff.Prelude.{
  ℕ, ◌≤◌, String, ◌≡◌, refl, sym, ap, ◌∙◌, subst, ◌⊎◌, inl, inr, Bool, true, false, ◌&&◌, ◌||◌,
  Option, none, some, List, [], ◌∷◌, map, arith, ◌==◌, lookup, values, ltb, eqb, Bool-cases, any,
  keep, any-append, ok,
}
use durable_agent_handoff.Types.{
  Time, after, Execution, Activity, Milestone, Attempt, Result, Pause, State,
}
use durable_agent_handoff.Queries.Ordered.{
  created_before, ordered_activities, ordered_attempts, belongs_to,
}
use durable_agent_handoff.Queries.Sorting.{any-sort_by, any-keep}
use durable_agent_handoff.Views.Executions.{ExecutionView, project_execution}
use durable_agent_handoff.Views.Executions.Opened.{open_execution}
use durable_agent_handoff.Views.Executions.Summary.{
  Considered, consider, consider_all, attempt_moments, pause_moments, ordered_results, moments,
  execution_summary,
}

abbrev pause_changed : (Time → Bool) → Option Pause → Bool
pause_changed f none = false
pause_changed f (some p) = f p.requested_at || f p.completed_at

-- Whether a change of a workflow has a time of which a test holds: the creation of an activity, of a
-- launch or of a result, a milestone of a launch, or the request or the completion of its pause.
abbrev pub some_change : State → String → (Time → Bool) → Bool
some_change s workflow_id f =
    any (λ a. a.workflow_id == workflow_id && f a.created_at) (values s.activities)
    || any (λ a. belongs_to s workflow_id a && (f a.created_at || any (λ m. f m.at) a.milestones))
        (values s.attempts)
    || any (λ r. r.workflow_id == workflow_id && f r.created_at) (values s.results)
    || pause_changed f (lookup workflow_id s.pauses)

any-map :
    {A : Type 0} {B : Type 0} (p : B → Bool) (g : A → B) (xs : List A)
    → any p (map g xs) ≡ any (λ x. p (g x)) xs
any-map p g [] = refl
any-map p g (x ∷ xs) = ap (λ b. p (g x) || b) (any-map p g xs)

module _ (s : State) (workflow_id : String) (f : Time → Bool) where
  any-attempt_moments :
      (xs : List Attempt)
      → any (λ (m : Time × String). f m.0) (attempt_moments xs)
        ≡ any (λ a. f a.created_at || any (λ m. f m.at) a.milestones) xs
  unfolding attempt_moments
  any-attempt_moments [] = refl
  any-attempt_moments (a ∷ xs) = ground (
    arith,
    any-append (λ (m : Time × String). f m.0) (map (λ m. (m.at, m.progress)) a.milestones)
        (attempt_moments xs),
    any-map (λ (m : Time × String). f m.0) (λ (m : Milestone). (m.at, m.progress)) a.milestones,
    any-attempt_moments xs,
  )

  any-pause_moments :
      (p : Option Pause) → any (λ (m : Time × String). f m.0) (pause_moments p) ≡ pause_changed f p
  any-pause_moments none = refl
  any-pause_moments (some p) = ground arith

  any-moments :
      any (λ (m : Time × String). f m.0) (moments s workflow_id) ≡ some_change s workflow_id f
  unfolding moments ordered_activities ordered_attempts
  any-moments =
      rw
        (
          any-append (λ (m : Time × String). f m.0) (map (λ a. (a.created_at, "")) activities) _,
          any-append (λ (m : Time × String). f m.0) (attempt_moments attempts) _,
          any-append (λ (m : Time × String). f m.0) (map (λ r. (r.created_at, r.summary)) results)
              _,
          own_activities,
          own_attempts,
          own_results,
          any-pause_moments (lookup workflow_id s.pauses),
        )
        (ground arith)
    where
      activities : List Activity
      activities = ordered_activities s workflow_id

      attempts : List Attempt
      attempts = ordered_attempts s workflow_id

      results : List Result
      results = ordered_results s workflow_id

      own_activities :
          any (λ (m : Time × String). f m.0) (map (λ a. (a.created_at, "")) activities)
          ≡ any (λ a. a.workflow_id == workflow_id && f a.created_at) (values s.activities)
      own_activities =
          any-map (λ (m : Time × String). f m.0) (λ (a : Activity). (a.created_at, "")) activities
          ∙ any-sort_by (λ a b. created_before a.created_at a.id b.created_at b.id)
              (λ a. f a.created_at) (keep (λ a. a.workflow_id == workflow_id) (values s.activities))
          ∙ any-keep (λ a. f a.created_at) (λ a. a.workflow_id == workflow_id) (values s.activities)

      own_attempts :
          any (λ (m : Time × String). f m.0) (attempt_moments attempts)
          ≡ any
              (λ a.
                belongs_to s workflow_id a && (f a.created_at || any (λ m. f m.at) a.milestones))
              (values s.attempts)
      own_attempts =
          any-attempt_moments attempts
          ∙ any-sort_by (λ a b. created_before a.created_at a.id b.created_at b.id)
              (λ a. f a.created_at || any (λ m. f m.at) a.milestones)
              (keep (belongs_to s workflow_id) (values s.attempts))
          ∙ any-keep (λ a. f a.created_at || any (λ m. f m.at) a.milestones)
              (belongs_to s workflow_id) (values s.attempts)

      own_results :
          any (λ (m : Time × String). f m.0) (map (λ r. (r.created_at, r.summary)) results)
          ≡ any (λ r. r.workflow_id == workflow_id && f r.created_at) (values s.results)
      own_results =
          any-map (λ (m : Time × String). f m.0) (λ (r : Result). (r.created_at, r.summary)) results
          ∙ any-sort_by (λ a b. created_before a.created_at a.id b.created_at b.id)
              (λ r. f r.created_at) (keep (λ r. r.workflow_id == workflow_id) (values s.results))
          ∙ any-keep (λ r. f r.created_at) (λ r. r.workflow_id == workflow_id) (values s.results)

-- The time of the last change so far is the latest of those considered.
abbrev IsLast : Time → List (Time × String) → Time → Type 0
IsLast start seen latest =
    (start ≤ latest)
    × (any (λ m. ltb latest m.0) seen ≡ false)
    × ((latest ≡ start) ⊎ (any (λ m. eqb m.0 latest) seen ≡ true))

consider_all-IsLast :
    (c : Considered) (seen : List (Time × String))
    → IsLast c.updated_at seen (consider_all c seen).updated_at
unfolding consider_all
consider_all-IsLast c [] = (omega arith, refl, inl refl)
consider_all-IsLast c ((at, value) ∷ rest) =
    let (later, all, reached) = consider_all-IsLast (consider c at value) rest in
    (
      ground (arith, later),
      ground (arith, later, all),
      elim reached [
        | inr found ↦ inr (ground (arith, found))
        | inl same ↦ elim (Bool-cases (after at c.updated_at)) [
          | inl newer ↦ inr (ground (arith, same, newer))
          | inr older ↦ inl (ground (arith, same, older))
        ]
      ],
    )

-- A time that is no earlier than a start and than any change of a workflow, and is that of one of them.
abbrev pub IsLatest : State → String → Time → Time → Type 0
IsLatest s workflow_id start latest =
    (start ≤ latest)
    × (some_change s workflow_id (λ t. ltb latest t) ≡ false)
    × ((latest ≡ start) ⊎ (some_change s workflow_id (λ t. eqb t latest) ≡ true))

execution_summary-IsLatest :
    (s : State) (workflow_id : String) (created_at : Time)
    → IsLatest s workflow_id created_at (execution_summary s workflow_id created_at).1
unfolding execution_summary
execution_summary-IsLatest s workflow_id created_at =
    let (later, none_later, reached) =
      consider_all-IsLast (record { summary = ""; summary_at = 0; updated_at = created_at })
        (moments s workflow_id) in
    let latest = (execution_summary s workflow_id created_at).1 in
    (
      later,
      sym (any-moments s workflow_id (λ t. ltb latest t)) ∙ none_later,
      elim reached [
        | inl same ↦ inl same
        | inr found ↦ inr (sym (any-moments s workflow_id (λ t. eqb t latest)) ∙ found)
      ],
    )

-- The time of the last change that a view shows is no earlier than the creation of the execution and
-- than any change of its workflow, and is the time of one of them: the creation of an activity, of a
-- launch or of a result, a milestone of a launch, or the request or the completion of the pause.
pub project_execution-IsLatest :
    (fuel : ℕ) (s : State) (execution_id : String) (as_of : Time) (v : ExecutionView)
    → project_execution fuel s execution_id as_of ≡ ok v
    → (e : Execution) × (lookup execution_id s.executions ≡ some e)
      × IsLatest s v.workflow_id e.created_at v.updated_at
project_execution-IsLatest fuel s execution_id as_of v h =
    let o = open_execution fuel s execution_id as_of v h in
    (
      o.execution,
      o.found,
      subst (IsLatest s v.workflow_id o.execution.created_at) (sym o.updated_at)
          (execution_summary-IsLatest s v.workflow_id o.execution.created_at),
    )
