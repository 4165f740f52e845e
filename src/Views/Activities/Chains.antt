-- ===== src/Views/Activities/Chains.antt =====
-- The chain of fallback activities ends, and the view of an activity is that of the end of its chain.
use durable_agent_handoff.Prelude.{
  ℕ, zero, suc, ◌+◌, ◌≤◌, ◌<◌, String, ◌≡◌, refl, inl, inr, Option, none, some, arith, Option-cases,
  Fallible, ok, err, map_ok,
}
use durable_agent_handoff.Types.{Time, Activity, Attempt, Result, State}
use durable_agent_handoff.Queries.{result_for_activity}
use durable_agent_handoff.Queries.Ordered.{fallback_child}
use durable_agent_handoff.Views.Activities.{
  ActivityStatus, ActivityView, new_view, by_result, by_waiting, by_child, waiting_result,
  status_of_work, project_own, project_activity,
}

-- The chain of fallback activities from one to the last.
pub data Falls (s : State) : Activity → Activity → Type 0 where
  stays : {a : Activity} → fallback_child s a.id ≡ none → Falls s a a
  falls : {a b last : Activity} → fallback_child s a.id ≡ some b → Falls s b last → Falls s a last

-- Fallback activities rise by a rank that is bounded.
abbrev pub IsRanked : State → (String → ℕ) → ℕ → Type 0
IsRanked s rank bound =
    (a b : Activity)
    → fallback_child s a.id ≡ some b
    → (rank a.id < rank b.id) × (rank b.id < bound)

-- What a view says by the view of the last activity of the chain: the same error, or a view of the
-- activity itself with the last one's status and result.
abbrev pub IsView : Activity → Fallible ActivityView → Fallible ActivityView → Type 0
IsView a (ok last) (ok view) =
    (view.id ≡ a.id) × (view.status ≡ last.status) × (view.result_id ≡ last.result_id)
IsView a (err e) (err f) = e ≡ f
IsView a _ _ = ⊥

HasId : Activity → Fallible ActivityView → Type 0
HasId a (ok view) = view.id ≡ a.id
HasId a (err e) = Unit {0}

project_own-HasId : (s : State) (a : Activity) (as_of : Time) → HasId a (project_own s a as_of)
unfolding project_own HasId
project_own-HasId s a as_of =
    from_result (result_for_activity s a.id) _
      (from_waiting (waiting_result s a) _ (from_work (status_of_work s a as_of)))
  where
    from_result :
        (r : Option Result) (view : Fallible ActivityView)
        → HasId a view
        → HasId a (by_result a r view)
    from_result none view h = h
    from_result (some r) view h = refl

    from_waiting :
        (x : Option Attempt) (view : Fallible ActivityView)
        → HasId a view
        → HasId a (by_waiting a x view)
    from_waiting none view h = h
    from_waiting (some x) view h = refl

    from_work :
        (status : Fallible ActivityStatus)
        → HasId a (map_ok (λ found. record (new_view a) { status = found }) status)
    from_work (ok status) = refl
    from_work (err e) = tt

IsView-refl : (a : Activity) (view : Fallible ActivityView) → HasId a view → IsView a view view
unfolding HasId
IsView-refl a (ok view) h = (h, refl, refl)
IsView-refl a (err e) h = refl

-- A view by the view of the fallback activity.
IsView-child :
    (a b : Activity) (own view : Fallible ActivityView) (project : Activity → Fallible ActivityView)
    (otherwise : Fallible ActivityView)
    → project b ≡ view
    → IsView b own view
    → IsView a own (by_child a (some b) project otherwise)
IsView-child a b (ok last) (ok view) project otherwise same (_, status, result) =
    rw same (refl, status, result)
IsView-child a b (err e) (err f) project otherwise same h = rw same h
IsView-child a b (ok last) (err f) project otherwise same h = elim h [ ]
IsView-child a b (err e) (ok view) project otherwise same h = elim h [ ]

-- Where the fallback activities rise by a rank, and the fuel covers what is left below the bound of the
-- ranks, the chain of an activity ends with a last one, and the view of the activity is found: its
-- status and its result are those of the last one's own view, or its error is that one's.
pub project_activity-last :
    (s : State) (rank : String → ℕ) (bound fuel : ℕ) (a : Activity) (as_of : Time)
    → IsRanked s rank bound
    → bound ≤ fuel + rank a.id
    → (last : Activity) × Falls s a last
      × IsView a (project_own s last as_of) (project_activity (suc fuel) s a as_of)
unfolding project_activity
project_activity-last s rank bound zero a as_of ranked enough =
    elim (Option-cases (fallback_child s a.id)) [
      | inl ends ↦ (
        a,
        Falls.stays ends,
        rw ends (IsView-refl a (project_own s a as_of) (project_own-HasId s a as_of)),
      )
      | inr (b, goes_on) ↦
          let (rises, bounded) = ranked a b goes_on in
          absurd (omega (arith, enough, rises, bounded))
    ]
project_activity-last s rank bound (suc fuel) a as_of ranked enough =
    elim (Option-cases (fallback_child s a.id)) [
      | inl ends ↦ (
        a,
        Falls.stays ends,
        rw ends (IsView-refl a (project_own s a as_of) (project_own-HasId s a as_of)),
      )
      | inr (b, goes_on) ↦
          let (rises, bounded) = ranked a b goes_on in
          let (last, chain, seen) =
            project_activity-last s rank bound fuel b as_of ranked (omega (arith, enough, rises)) in
          (
            last,
            Falls.falls goes_on chain,
            rw goes_on (
                IsView-child a b (project_own s last as_of) (project_activity (suc fuel) s b as_of)
                  (λ child. project_activity (suc fuel) s child as_of) (project_own s a as_of) refl
                  seen),
          )
    ]
