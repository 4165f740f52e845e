-- ===== src/Reducer/Runs.antt =====
-- applyDomainEvent of internal/supervisor/reducer.go, the events of a run: attempts, milestones,
-- results, leases, controls and pauses.
use durable_agent_handoff.Prelude.{
  String, Bool, not, ◌&&◌, ◌||◌, Option, some, List, [], ◌∷◌, ◌++◌, ◌==◌, Assoc, lookup, put,
  if◌then◌else◌, is_some, is_none, any, invalid, panics, Fallible, ok, ◌>>=◌, ◌>>◌, refuse, or_fail,
}
use durable_agent_handoff.Types.{
  Time, is_zero, MilestoneKind, PausePhase, is_unset_phase, is_completed_phase, native_eq,
  Milestone, Attempt, Result, Pause, Lease, Control, State,
}

unfoldable pub apply_attempt_prepared : State → Option Attempt → Option Lease → Fallible State
apply_attempt_prepared s attempt lease = do
  a ← or_fail attempt (invalid "attempt preparation is incomplete or duplicate")
  l ← or_fail lease (invalid "attempt preparation is incomplete or duplicate")
  refuse (is_some (lookup a.id s.attempts) || is_some (lookup l.id s.leases))
      (invalid "attempt preparation is incomplete or duplicate")
  ok (record s { attempts = put a.id a s.attempts; leases = put l.id l s.leases })

-- A spawned process without its identity is dereferenced.
unfoldable pub bind_process : Attempt → Milestone → Fallible Attempt
bind_process a m = elim m.kind [
  | MilestoneKind.process_spawned ↦
      or_fail m.process panics >>= λ p. ok (record a { process = some p })
  | _ ↦ ok a
]

unfoldable pub bind_session : State → Attempt → Milestone → Fallible State
bind_session s a m = elim m.kind [
  | MilestoneKind.session_bound ↦ (do
    activity ←
        or_fail (lookup a.activity_id s.activities)
          (invalid "session binding targets an invalid activity")
    native ← or_fail m.session (invalid "session binding targets an invalid activity")
    x ←
        or_fail (lookup activity.session_id s.sessions)
          (invalid "session binding targets an unknown session")
    refuse (not (x.native.id == "") && not (native_eq x.native native))
        (invalid "session binding changes an immutable native identity")
    ok (record s { sessions = put activity.session_id (record x { native = native }) s.sessions }))
  | _ ↦ ok s
]

unfoldable pub apply_milestone : State → String → Milestone → Fallible State
unfolding bind_process bind_session
apply_milestone s attempt_id m = do
  a ← or_fail (lookup attempt_id s.attempts) (invalid "milestone targets an unknown attempt")
  b ← bind_process (record a { milestones = a.milestones ++ m ∷ [] }) m
  bind_session (record s { attempts = put attempt_id b s.attempts }) b m

unfoldable pub apply_result_created : State → Option Result → Fallible State
apply_result_created s result = do
  r ← or_fail result (invalid "result event is incomplete or duplicate")
  refuse (is_some (lookup r.id s.results)) (invalid "result event is incomplete or duplicate")
  ok (record s { results = put r.id r s.results })

-- containsLease
unfoldable pub contains_lease : List String → String → Bool
contains_lease ids wanted = any (λ id. id == wanted) ids

-- The lease of a fenced attempt is noted, once for all its occurrences.
unfoldable pub note_release : Lease → List String → Pause → Pause
unfolding contains_lease
note_release l [] p = p
note_release l (attempt_id ∷ ids) p = note_release l ids (
    if attempt_id == l.attempt_id && not (contains_lease p.released_lease_ids l.id)
    then record p { released_lease_ids = p.released_lease_ids ++ l.id ∷ [] }
    else p)

unfoldable pub note_releases : Lease → Assoc Pause → Assoc Pause
unfolding note_release
note_releases l [] = []
note_releases l ((id, p) ∷ m) = (id, note_release l p.fenced_attempt_ids p) ∷ note_releases l m

unfoldable pub apply_lease_released : State → String → Time → Fallible State
unfolding note_releases
apply_lease_released s lease_id at = do
  l ← or_fail (lookup lease_id s.leases) (invalid "lease release targets an inactive lease")
  refuse (not (is_zero l.released_at)) (invalid "lease release targets an inactive lease")
  ok (record s {
    leases = put lease_id (record l { released_at = at }) s.leases;
    pauses = note_releases l s.pauses;
  })

unfoldable pub apply_control_recorded : State → Option Control → Fallible State
apply_control_recorded s control = do
  c ← or_fail control (invalid "control event is incomplete or duplicate")
  refuse (is_some (lookup c.id s.controls)) (invalid "control event is incomplete or duplicate")
  ok (record s { controls = put c.id c s.controls })

unfoldable pub apply_control_applied : State → String → Time → Fallible State
apply_control_applied s control_id at = do
  c ←
      or_fail (lookup control_id s.controls)
        (invalid "control application targets an invalid control")
  refuse (not c.accepted || not (is_zero c.applied_at) || is_zero at)
      (invalid "control application targets an invalid control")
  ok (record s { controls = put control_id (record c { applied_at = at }) s.controls })

-- Journals written before draining pauses have no phase.
unfoldable pub migrate_pause : Pause → Pause
migrate_pause p =
    if is_unset_phase p.phase
    then (if is_zero p.completed_at
        then record p { phase = PausePhase.draining }
        else record p { phase = PausePhase.completed })
    else p

unfoldable pub apply_workflow_paused : State → Option Pause → Fallible State
unfolding migrate_pause
apply_workflow_paused s pause = do
  q ← or_fail pause (invalid "pause event is incomplete, unknown, or duplicate")
  let p = migrate_pause q
  refuse
      (p.workflow_id == ""
        || is_unset_phase p.phase
        || is_none (lookup p.workflow_id s.workflows)
        || is_some (lookup p.workflow_id s.pauses))
      (invalid "pause event is incomplete, unknown, or duplicate")
  ok (record s { pauses = put p.workflow_id p s.pauses })

unfoldable pub apply_pause_settled : State → String → Time → Fallible State
apply_pause_settled s workflow_id at = do
  p ← or_fail (lookup workflow_id s.pauses) (invalid "pause settlement targets an invalid pause")
  refuse (is_completed_phase p.phase || is_zero at)
      (invalid "pause settlement targets an invalid pause")
  ok (record s {
    pauses =
        put workflow_id (record p { phase = PausePhase.completed; completed_at = at }) s.pauses;
  })
