-- ===== src/Commands/Controls/Single.antt =====
-- An attempt has one accepted control at most, of requestControlCommand.
use durable_agent_handoff.Prelude.{
  ◌≤◌, String, ◌≡◌, refl, subst, ◌⊎◌, inl, inr, Bool, true, false, none, some, List, [], ◌∷◌, arith,
  lookup, put, values, Bool-cases, Option-cases, is_some, any, count, keep, any-count, count-put,
  ok,
}
use durable_agent_handoff.Types.{Time, Activity, Attempt, Control, State}
use durable_agent_handoff.Environment.{Environment}
use durable_agent_handoff.Events.{DomainEvent}
use durable_agent_handoff.Queries.Ordered.{
  insert_by, sort_by, first, controls_attempt, accepted_control,
}
use durable_agent_handoff.Commands.Controls.{
  RequestControlInput, new_control, exact_attempt, existing_control, accepts, request_control,
}
use durable_agent_handoff.Reducer.{apply_domain_event, apply_events}
use durable_agent_handoff.Reducer.Runs.{apply_control_recorded}

first-insert_by :
    {A : Type 0} (less : A → A → Bool) (x : A) (xs : List A)
    → is_some (first (insert_by less x xs)) ≡ true
unfolding insert_by
first-insert_by less x [] = refl
first-insert_by less x (y ∷ ys) = ground arith

none_kept :
    {A : Type 0} (less : A → A → Bool) (p : A → Bool) (xs : List A)
    → first (sort_by less (keep p xs)) ≡ none
    → any p xs ≡ false
unfolding sort_by
none_kept less p [] h = refl
none_kept less p (x ∷ xs) h = elim (Bool-cases (p x)) [
  | inl y ↦ absurd (ground (arith, y, first-insert_by less x (sort_by less (keep p xs))))
  | inr n ↦ ground (arith, n, none_kept less p xs)
]

accepted_control-none :
    (s : State) (b : Activity) (a : Attempt)
    → accepted_control s b a ≡ none
    → count (controls_attempt b a) (values s.controls) ≡ 0
unfolding accepted_control
accepted_control-none s b a h =
    any-count (controls_attempt b a) (values s.controls)
      (none_kept _ (controls_attempt b a) (values s.controls) h)

recorded_control :
    (s t : State) (c : Control)
    → apply_events s (DomainEvent.control_recorded (some c) ∷ []) ≡ ok t
    → (t.controls ≡ put c.id c s.controls) × (is_some (lookup c.id s.controls) ≡ false)
unfolding apply_events apply_domain_event apply_control_recorded
recorded_control s t c h = (ground arith, ground arith)

open_request :
    (env : Environment) (i : RequestControlInput) (s : State) (now : Time)
    (d : List DomainEvent × String)
    → request_control env i s now ≡ ok d
    → (d.0 ≡ DomainEvent.control_recorded (some (new_control env i s now)) ∷ [])
      × (existing_control s (exact_attempt i s) ≡ none)
unfolding request_control
open_request env i s now d h = elim (Option-cases (existing_control s (exact_attempt i s))) [
  | inr (c, e) ↦ absurd (ground arith)
  | inl e ↦ (ground arith, e)
]

exact_attempt-cases :
    (i : RequestControlInput) (s : State) (b : Activity) (a : Attempt)
    → lookup i.activity_id s.activities ≡ some b
    → lookup i.expected_attempt_id s.attempts ≡ some a
    → (exact_attempt i s ≡ none) ⊎ (exact_attempt i s ≡ some (b, a))
unfolding exact_attempt
exact_attempt-cases i s b a hb ha = elim (Option-cases (exact_attempt i s)) [
  | inl e ↦ inl e
  | inr (p, e) ↦ inr (ground arith)
]

new_control-counted :
    (env : Environment) (i : RequestControlInput) (s : State) (now : Time) (b : Activity)
    (a : Attempt)
    → (exact_attempt i s ≡ none) ⊎ (exact_attempt i s ≡ some (b, a))
    → existing_control s (exact_attempt i s) ≡ none
    → controls_attempt b a (new_control env i s now) ≡ true
    → count (controls_attempt b a) (values s.controls) ≡ 0
unfolding controls_attempt new_control accepts
new_control-counted env i s now b a (inl e) free c = absurd (ground arith)
new_control-counted env i s now b a (inr e) free c =
    accepted_control-none s b a (subst (λ p. existing_control s p ≡ none) e free)

-- Where the state has the request's activity and attempt, a request for a control that is reduced
-- leaves the attempt with one accepted control at most, if it had one at most before.
pub request_control-single :
    (env : Environment) (i : RequestControlInput) (s t : State) (now : Time)
    (d : List DomainEvent × String) (b : Activity) (a : Attempt)
    → lookup i.activity_id s.activities ≡ some b
    → lookup i.expected_attempt_id s.attempts ≡ some a
    → count (controls_attempt b a) (values s.controls) ≤ 1
    → request_control env i s now ≡ ok d
    → apply_events s d.0 ≡ ok t
    → count (controls_attempt b a) (values t.controls) ≤ 1
request_control-single env i s t now d b a hb ha one h applied =
    let c = new_control env i s now in
    let (recorded, free) = open_request env i s now d h in
    let (stored, fresh) =
      recorded_control s t c (subst (λ es. apply_events s es ≡ ok t) recorded applied) in
    let none_yet = new_control-counted env i s now b a (exact_attempt-cases i s b a hb ha) free in
    rw (stored, count-put (controls_attempt b a) c.id c s.controls fresh) (ground (arith, none_yet))
