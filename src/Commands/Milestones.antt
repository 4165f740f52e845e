-- ===== src/Commands/Milestones.antt =====
-- validateMilestone of internal/supervisor/commands.go: which milestone may follow an attempt's.
pub mod Machine
pub mod Lifecycle
use durable_agent_handoff.Prelude.{
  Bool, true, false, not, ◌&&◌, ◌||◌, Option, none, some, List, [], ◌∷◌, ◌==◌, blank, lookup,
  is_some, is_none, any, invalid, Fallible, ok, err, ◌>>=◌, ◌>>◌, refuse, or_fail, pos, leb_ℤ,
}
use durable_agent_handoff.Types.{
  Time, before, MilestoneKind, is_turn_started, is_result, is_exit, is_continue, is_needs_human,
  is_known_status, NativeSessionIdentity, native_eq, Activity, ProcessIdentity, WorkerResult,
  Milestone, Attempt, State,
}
use durable_agent_handoff.Queries.{runs_as_goal}

abbrev pub is_valid_kind : MilestoneKind → Bool
is_valid_kind (MilestoneKind.unknown_kind k) = false
is_valid_kind _ = true

abbrev pub is_failure : MilestoneKind → Bool
is_failure MilestoneKind.adapter_start_failed = true
is_failure MilestoneKind.provider_unavailable = true
is_failure _ = false

-- turnStarted, resultSeen, exitSeen and failedBeforeExit of the prior milestones
abbrev pub turn_seen : List Milestone → Bool
turn_seen ms = any (λ m. is_turn_started m.kind) ms

abbrev pub result_seen : List Milestone → Bool
result_seen ms = any (λ m. is_result m.kind) ms

abbrev pub exit_seen : List Milestone → Bool
exit_seen ms = any (λ m. is_exit m.kind) ms

abbrev pub failure_seen : List Milestone → Bool
failure_seen ms = any (λ m. is_failure m.kind) ms

-- Whether a time precedes the last milestone's.
unfoldable pub precedes_last : Time → List Milestone → Bool
precedes_last at [] = false
precedes_last at (m ∷ []) = before at m.at
precedes_last at (m ∷ n ∷ ms) = precedes_last at (n ∷ ms)

unfoldable pub validate_spawn : Attempt → Option ProcessIdentity → Fallible (Unit {0})
validate_spawn a none = err (invalid "process_spawned requires one exact PID and start token")
validate_spawn a (some p) =
    refuse (is_some a.process || leb_ℤ p.pid (pos 0) || blank p.start_token)
      (invalid "process_spawned requires one exact PID and start token")

unfoldable pub validate_binding :
    State → Attempt → Activity → Option NativeSessionIdentity → Fallible (Unit {0})
validate_binding s a activity native = do
  refuse (is_none a.process) (invalid "session_bound requires exact native identity")
  n ← or_fail native (invalid "session_bound requires exact native identity")
  x ←
      or_fail (lookup activity.session_id s.sessions)
        (invalid "runtime bound a different native session identity")
  refuse
      (not (n.runtime == x.native.runtime)
        || (not (x.native.id == "") && not (native_eq n x.native)))
      (invalid "runtime bound a different native session identity")

-- A blocker kind goes with a question, and both with needs_human alone.
unfoldable pub validate_payload : Bool → WorkerResult → Fallible (Unit {0})
validate_payload goal r = do
  refuse (not (is_known_status r.status)) (invalid "unsupported result status")
  refuse (is_continue r.status && not goal) (invalid "continue result requires a goal")
  refuse (is_needs_human r.status && (r.blocker_kind == "" || r.question == "") && not goal)
      (invalid "one-shot human stop requires a blocker and concrete question")
  refuse
      ((r.blocker_kind == "" && not (r.question == ""))
        || (not (r.blocker_kind == "") && r.question == ""))
      (invalid "result blocker kind and question must be supplied together")
  refuse (not (is_needs_human r.status) && (not (r.blocker_kind == "") || not (r.question == "")))
      (invalid "only needs_human may carry blocker fields")

unfoldable pub validate_result :
    State → Attempt → Activity → Option WorkerResult → Fallible (Unit {0})
unfolding validate_payload
validate_result s a activity result = do
  refuse (not (turn_seen a.milestones) || result_seen a.milestones)
      (invalid "result requires one started turn and a non-empty typed result")
  r ← or_fail result (invalid "result requires one started turn and a non-empty typed result")
  refuse (blank r.summary) (invalid "result requires one started turn and a non-empty typed result")
  validate_payload (runs_as_goal (lookup activity.workflow_id s.workflows)) r

-- The switch on the kind.
unfoldable pub validate_kind : State → Attempt → Activity → Milestone → Fallible (Unit {0})
unfolding validate_spawn validate_binding validate_result
validate_kind s a activity m = elim m.kind [
  | MilestoneKind.process_spawned ↦ validate_spawn a m.process
  | MilestoneKind.session_bound ↦ validate_binding s a activity m.session
  | MilestoneKind.turn_started ↦
      refuse (is_none a.process || turn_seen a.milestones)
        (invalid "turn_started requires a spawned process and occurs once")
  | MilestoneKind.effect_started ↦
      refuse (not (turn_seen a.milestones) || blank m.effect)
        (invalid "effect_started requires a started turn and typed effect")
  | MilestoneKind.meaningful_progress ↦
      refuse (not (turn_seen a.milestones) || blank m.progress)
        (invalid "meaningful_progress requires a started turn and semantic progress")
  | MilestoneKind.result ↦ validate_result s a activity m.result
  | MilestoneKind.provider_unavailable ↦
      refuse (turn_seen a.milestones || blank m.failure)
        (invalid "provider_unavailable is pre-turn and requires a classified reason")
  | MilestoneKind.adapter_start_failed ↦
      refuse (turn_seen a.milestones || blank m.failure)
        (invalid "adapter_start_failed is pre-turn and requires a reason")
  | MilestoneKind.exit ↦ refuse (is_none m.exit) (invalid "exit requires an exit payload")
  | MilestoneKind.unknown_kind k ↦ ok tt
]

unfoldable pub validate_milestone : State → Attempt → Activity → Milestone → Fallible (Unit {0})
validate_milestone s a activity m = do
  refuse (not (is_valid_kind m.kind)) (invalid "unknown milestone")
  refuse (exit_seen a.milestones) (invalid "Attempt is terminal")
  refuse (failure_seen a.milestones && not (is_exit m.kind))
      (invalid "only exit may follow a pre-exit failure")
  refuse (before m.at a.created_at || precedes_last m.at a.milestones)
      (invalid "milestone timestamp precedes immutable Attempt history")
  refuse (result_seen a.milestones && not (is_exit m.kind))
      (invalid "only exit may follow an immutable result")
  validate_kind s a activity m
