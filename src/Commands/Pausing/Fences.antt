-- ===== src/Commands/Pausing/Fences.antt =====
-- What a pause fences and when it settles, of pauseWorkflowCommand and settlePauseCommand.
use durable_agent_handoff.Prelude.{
  String, ◌≡◌, refl, ap, ◌↔◌, inl, inr, Bool, true, false, not, ◌&&◌, Option, none, some, List, [],
  ◌∷◌, ◌++◌, map, arith, lookup, eqb, if◌then◌else◌, Option-cases, is_some, is_empty, any, keep,
  All, ok, for_each,
}
use durable_agent_handoff.Types.{
  Time, is_zero, is_exit, PausePhase, is_completed_phase, Activity, Attempt, Pause, Lease, State,
}
use mathlib.Core.Logic.{◌↔◌}
use durable_agent_handoff.Environment.{Environment}
use durable_agent_handoff.Events.{DomainEvent}
use durable_agent_handoff.Queries.{attempt_has_exit}
use durable_agent_handoff.Queries.Ordered.{ordered_attempts}
use durable_agent_handoff.Commands.Pausing.{
  PauseWorkflowInput, SettlePauseInput, live_activity, fence_attempts, new_pause, pause_workflow,
  check_drained, settle_pause,
}

-- An attempt that has exited and whose lease is released.
pub record IsDrained (s : State) (attempt_id : String) : Type 0 where
  pub attempt : Attempt
  pub lease : Lease
  pub found : lookup attempt_id s.attempts ≡ some attempt
  pub exited : attempt_has_exit attempt ≡ true
  pub held : lookup attempt.lease_id s.leases ≡ some lease
  pub released : is_zero lease.released_at ≡ false

IsDrained-check_drained : (s : State) (id : String) → check_drained s id ≡ ok tt → IsDrained s id
unfolding check_drained
IsDrained-check_drained s id h = elim (Option-cases (lookup id s.attempts)) [
  | inl z ↦ absurd (ground arith)
  | inr (a, ha) ↦ elim (Option-cases (lookup a.lease_id s.leases)) [
    | inl z ↦ absurd (ground arith)
    | inr (l, hl) ↦ record {
      attempt = a;
      lease = l;
      found = ha;
      exited = ground arith;
      held = hl;
      released = ground arith;
    }
  ]
]

check_drained-IsDrained : (s : State) (id : String) → IsDrained s id → check_drained s id ≡ ok tt
unfolding check_drained
check_drained-IsDrained s id d = ground (arith, d.found, d.exited, d.held, d.released)

for_each-check_drained :
    (s : State) (ids : List String) → for_each (check_drained s) ids ≡ ok tt → All (IsDrained s) ids
for_each-check_drained s [] h = tt
for_each-check_drained s (id ∷ ids) h =
    (IsDrained-check_drained s id (ground arith), for_each-check_drained s ids (ground arith))

for_each-All :
    (s : State) (ids : List String) → All (IsDrained s) ids → for_each (check_drained s) ids ≡ ok tt
for_each-All s [] d = refl
for_each-All s (id ∷ ids) d = rw (check_drained-IsDrained s id d.0) (for_each-All s ids d.1)

-- What a pause waits for.
pub record IsSettling (s : State) (workflow_id : String) : Type 0 where
  pub pause : Pause
  pub found : lookup workflow_id s.pauses ≡ some pause
  pub draining : is_completed_phase pause.phase ≡ false
  pub drained : All (IsDrained s) pause.fenced_attempt_ids

settle_pause-IsSettling :
    (i : SettlePauseInput) (s : State) (now : Time) (d : List DomainEvent × String)
    → settle_pause i s now ≡ ok d
    → IsSettling s i.workflow_id
unfolding settle_pause
settle_pause-IsSettling i s now d h = elim (Option-cases (lookup i.workflow_id s.pauses)) [
  | inl z ↦ absurd (ground arith)
  | inr (p, hp) ↦ record {
    pause = p;
    found = hp;
    draining = ground arith;
    drained = for_each-check_drained s p.fenced_attempt_ids (ground arith);
  }
]

IsSettling-settle_pause :
    (i : SettlePauseInput) (s : State) (now : Time)
    → IsSettling s i.workflow_id
    → settle_pause i s now ≡ ok (DomainEvent.pause_settled i.workflow_id now ∷ [], i.workflow_id)
unfolding settle_pause
IsSettling-settle_pause i s now w =
    ground (arith, w.found, w.draining, for_each-All s w.pause.fenced_attempt_ids w.drained)

-- A pause settles exactly when it is draining and each attempt that it fenced has exited and has
-- its lease released; the settlement is then the command's one event.
pub settle_pause_iff :
    (i : SettlePauseInput) (s : State) (now : Time)
    → (settle_pause i s now ≡ ok (DomainEvent.pause_settled i.workflow_id now ∷ [], i.workflow_id))
      ↔ IsSettling s i.workflow_id
settle_pause_iff i s now = (
  settle_pause-IsSettling i s now (DomainEvent.pause_settled i.workflow_id now ∷ [], i.workflow_id),
  IsSettling-settle_pause i s now,
)

abbrev is_open : Option Lease → Bool
is_open none = false
is_open (some l) = is_zero l.released_at

abbrev is_current : Attempt → Option Activity → Bool
is_current a none = false
is_current a (some b) = eqb a.activity_generation b.generation

-- A live attempt: its lease is there and is not released, it has no exit milestone, and its activity is
-- there and of its generation.
abbrev pub is_live : State → Attempt → Bool
is_live s a =
    is_open (lookup a.lease_id s.leases)
    && not (any (λ m. is_exit m.kind) a.milestones)
    && is_current a (lookup a.activity_id s.activities)

live_activity-is_live : (s : State) (a : Attempt) → is_live s a ≡ is_some (live_activity s a)
unfolding live_activity attempt_has_exit
live_activity-is_live s a = elim (Option-cases (lookup a.lease_id s.leases)) [
  | inl z ↦ ground (arith, z)
  | inr (l, hl) ↦ elim (Option-cases (lookup a.activity_id s.activities)) [
    | inl z ↦ ground (arith, hl, z)
    | inr (b, hb) ↦ ground (arith, hl, hb)
  ]
]

fence_attempts-ids :
    (env : Environment) (i : PauseWorkflowInput) (s : State) (now : Time) (xs : List Attempt)
    → (fence_attempts env i s now xs).1 ≡ map (λ a. a.id) (keep (is_live s) xs)
unfolding fence_attempts
fence_attempts-ids env i s now [] = refl
fence_attempts-ids env i s now (a ∷ xs) = elim (Option-cases (live_activity s a)) [
  | inl z ↦ rw (live_activity-is_live s a, z, fence_attempts) (fence_attempts-ids env i s now xs)
  | inr (b, z) ↦
      rw (live_activity-is_live s a, z, fence_attempts)
        (ap (λ ids. a.id ∷ ids) (fence_attempts-ids env i s now xs))
]

-- A pause that is accepted ends in an event that fences exactly the live attempts of the workflow, in
-- order: those with a lease that is not released, without an exit and of the generation of their
-- activity. It is settled at once exactly when there is none.
pub pause_workflow-fences :
    (env : Environment) (i : PauseWorkflowInput) (s : State) (now : Time)
    (d : List DomainEvent × String)
    → pause_workflow env i s now ≡ ok d
    → (before : List DomainEvent) × (p : Pause) × (d.0
        ≡ before ++ DomainEvent.workflow_paused (some p) ∷ [])
      × (lookup i.workflow_id s.pauses ≡ none)
      × (p.fenced_attempt_ids
          ≡ map (λ a. a.id) (keep (is_live s) (ordered_attempts s i.workflow_id)))
      × (is_completed_phase p.phase ≡ not (any (is_live s) (ordered_attempts s i.workflow_id)))
unfolding pause_workflow new_pause
pause_workflow-fences env i s now d h =
    let xs = ordered_attempts s i.workflow_id in
    let ids = fence_attempts-ids env i s now xs in
    (
      (fence_attempts env i s now xs).0,
      new_pause i (fence_attempts env i s now xs).1 now,
      ground arith,
      ground arith,
      ids,
      rw ids (is_completed_phase-map xs),
    )
  where
    is_completed_phase-map :
        (xs : List Attempt)
        → is_completed_phase (
            if is_empty (map (λ a. a.id) (keep (is_live s) xs))
            then PausePhase.completed
            else PausePhase.draining)
          ≡ not (any (is_live s) xs)
    is_completed_phase-map [] = refl
    is_completed_phase-map (a ∷ xs) = ground (arith, is_completed_phase-map xs)
