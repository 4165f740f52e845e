-- ===== src/Views/Activities/Returned.antt =====
-- Calls that return a value, and the view of an activity whose workflow is there.
use durable_agent_handoff.Prelude.{
  ℕ, ◌≡◌, refl, Bool, true, false, ◌&&◌, Option, none, some, lookup, eqb, if◌then◌else◌, is_some,
  Error, Fallible, ok, err, ◌>>=◌, or_fail, map_ok, pos, ltb_ℤ,
}
use durable_agent_handoff.Types.{Time, after, Workflow, Activity, Attempt, Result, State}
use durable_agent_handoff.Queries.{result_for_activity, has_turn_started, launches_of, turns_of}
use durable_agent_handoff.Queries.Ordered.{ordered_attempts_for_activity}
use durable_agent_handoff.Views.Activities.{
  ActivityStatus, ActivityView, by_result, by_waiting, set_time, is_unresolved, live_attempt,
  status_by_budget, waiting_result, status_of_work, project_own,
}
use durable_agent_handoff.Views.Activities.Chains.{IsView}

-- A call that returns a value.
abbrev pub Returns {ℓ} : {A : Type ℓ} → Fallible A → Type ℓ
Returns {A = A} call = (value : A) × (call ≡ ok value)

module _ {A B : Type 0} where
  pub bind-Returns :
      (call : Fallible A) (next : A → Fallible B)
      → Returns call
      → ((a : A) → call ≡ ok a → Returns (next a))
      → Returns (call >>= next)
  bind-Returns call next (a, h) after_it = let (b, k) = after_it a h in (b, rw h k)

  map_ok-Returns : (f : A → B) (call : Fallible A) → Returns call → Returns (map_ok f call)
  map_ok-Returns f call (a, h) = (f a, rw h refl)

module _ {A : Type 0} where
  if-Returns : (b : Bool) (x y : Fallible A) → Returns x → Returns y → Returns (if b then x else y)
  if-Returns true x y h k = h
  if-Returns false x y h k = k

  pub or_fail-Returns : (o : Option A) (e : Error) → is_some o ≡ true → Returns (or_fail o e)
  or_fail-Returns none e h = cc
  or_fail-Returns (some a) e h = (a, refl)

status_by_budget-Returns :
    (launches turns : ℕ) (w : Option Workflow)
    → is_some w ≡ true
    → Returns (status_by_budget launches turns w)
status_by_budget-Returns launches turns none h = cc
status_by_budget-Returns launches turns (some w) h =
    if-Returns (eqb launches 0) (ok ActivityStatus.queued)
      (if below then ok ActivityStatus.retryable else ok ActivityStatus.failed)
      (ActivityStatus.queued, refl)
      (if-Returns below (ok ActivityStatus.retryable) (ok ActivityStatus.failed)
        (ActivityStatus.retryable, refl) (ActivityStatus.failed, refl))
  where
    below : Bool
    below =
        ltb_ℤ (pos launches) w.budget.max_launches && ltb_ℤ (pos turns) w.budget.max_task_attempts

live-Returns :
    (x : Option Attempt) (status : Attempt → ActivityStatus) (otherwise : Fallible ActivityStatus)
    → Returns otherwise
    → Returns (elim x [ some a ↦ ok (status a) | none ↦ otherwise ])
live-Returns none status otherwise h = h
live-Returns (some a) status otherwise h = (status a, refl)

unless :
    (b : Bool) (status : ActivityStatus) (otherwise : Fallible ActivityStatus)
    → Returns otherwise
    → Returns (if b then ok status else otherwise)
unless b status otherwise h = if-Returns b (ok status) otherwise (status, refl) h

status_of_work-Returns :
    (s : State) (a : Activity) (as_of : Time)
    → is_some (lookup a.workflow_id s.workflows) ≡ true
    → Returns (status_of_work s a as_of)
unfolding status_of_work
status_of_work-Returns s a as_of h =
    unless (is_unresolved (lookup a.session_id s.sessions)) ActivityStatus.needs_human _ (
      unless (is_some (lookup a.workflow_id s.pauses)) ActivityStatus.paused _ (
        unless (elim (set_time a.not_before) [ none ↦ false | some t ↦ after t as_of ])
          ActivityStatus.scheduled _
          (live-Returns (live_attempt (ordered_attempts_for_activity s a.id))
            (λ x. if has_turn_started x then ActivityStatus.running else ActivityStatus.starting)
            (status_by_budget (launches_of s a.id) (turns_of s a.id)
              (lookup a.workflow_id s.workflows))
            (status_by_budget-Returns (launches_of s a.id) (turns_of s a.id)
              (lookup a.workflow_id s.workflows) h))))

pub project_own-Returns :
    (s : State) (a : Activity) (as_of : Time)
    → is_some (lookup a.workflow_id s.workflows) ≡ true
    → Returns (project_own s a as_of)
unfolding project_own
project_own-Returns s a as_of h = from_result (result_for_activity s a.id) _ (
    from_waiting (waiting_result s a) _
      (map_ok-Returns _ (status_of_work s a as_of) (status_of_work-Returns s a as_of h)))
  where
    from_result :
        (r : Option Result) (view : Fallible ActivityView)
        → Returns view
        → Returns (by_result a r view)
    from_result none view h = h
    from_result (some r) view h = (_, refl)

    from_waiting :
        (x : Option Attempt) (view : Fallible ActivityView)
        → Returns view
        → Returns (by_waiting a x view)
    from_waiting none view h = h
    from_waiting (some x) view h = (_, refl)

-- The view of an activity by the view at the end of its chain
pub IsView-Returns :
    (a : Activity) (own view : Fallible ActivityView)
    → Returns own
    → IsView a own view
    → Returns view
IsView-Returns a own (ok v) h seen = (v, refl)
IsView-Returns a (err e) (err f) (v, h) seen = cc
IsView-Returns a (ok v) (err f) h seen = elim seen [ ]
