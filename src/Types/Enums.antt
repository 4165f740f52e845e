-- ===== src/Types/Enums.antt =====
-- The string-valued types of internal/supervisor/types.go: one constructor for each constant, and
-- one for every other text that a journal may hold.
use durable_agent_handoff.Prelude.{ℕ, String, Bool, true, false, ◌==◌, ltb, eqb}

-- time.Time, in nanoseconds; IsZero, Before and After.
abbrev pub Time : Type 0
Time = ℕ

abbrev pub is_zero : Time → Bool
is_zero t = eqb t 0

abbrev pub before : Time → Time → Bool
before a b = ltb a b

abbrev pub after : Time → Time → Bool
after a b = ltb b a

pub data Sandbox : Type 0 where
  read_only workspace_write : Sandbox
  other_sandbox : String → Sandbox

abbrev pub sandbox_eq : Sandbox → Sandbox → Bool
sandbox_eq Sandbox.read_only Sandbox.read_only = true
sandbox_eq Sandbox.workspace_write Sandbox.workspace_write = true
sandbox_eq (Sandbox.other_sandbox a) (Sandbox.other_sandbox b) = a == b
sandbox_eq _ _ = false

abbrev pub is_read_only : Sandbox → Bool
is_read_only Sandbox.read_only = true
is_read_only _ = false

-- `unset_mode` is the empty text.
pub data ExecutionMode : Type 0 where
  unset_mode turn_mode session_mode : ExecutionMode
  other_mode : String → ExecutionMode

abbrev pub is_session_mode : ExecutionMode → Bool
is_session_mode ExecutionMode.session_mode = true
is_session_mode _ = false

pub data FinalizationState : Type 0 where
  prepared merged blocked : FinalizationState
  other_finalization : String → FinalizationState

abbrev pub is_prepared : FinalizationState → Bool
is_prepared FinalizationState.prepared = true
is_prepared _ = false

abbrev pub is_settled : FinalizationState → Bool
is_settled FinalizationState.merged = true
is_settled FinalizationState.blocked = true
is_settled _ = false

pub data MilestoneKind : Type 0 where
  process_spawned session_bound turn_started effect_started meaningful_progress : MilestoneKind
  result provider_unavailable adapter_start_failed exit : MilestoneKind
  unknown_kind : String → MilestoneKind

abbrev pub is_turn_started : MilestoneKind → Bool
is_turn_started MilestoneKind.turn_started = true
is_turn_started _ = false

abbrev pub is_result : MilestoneKind → Bool
is_result MilestoneKind.result = true
is_result _ = false

abbrev pub is_exit : MilestoneKind → Bool
is_exit MilestoneKind.exit = true
is_exit _ = false

abbrev pub is_adapter_start_failed : MilestoneKind → Bool
is_adapter_start_failed MilestoneKind.adapter_start_failed = true
is_adapter_start_failed _ = false

abbrev pub is_provider_unavailable : MilestoneKind → Bool
is_provider_unavailable MilestoneKind.provider_unavailable = true
is_provider_unavailable _ = false

abbrev pub is_meaningful_progress : MilestoneKind → Bool
is_meaningful_progress MilestoneKind.meaningful_progress = true
is_meaningful_progress _ = false

-- The status of a worker's result and of an activity's.
pub data ResultStatus : Type 0 where
  completed continue needs_human blocked : ResultStatus
  other_status : String → ResultStatus

abbrev pub is_completed : ResultStatus → Bool
is_completed ResultStatus.completed = true
is_completed _ = false

abbrev pub is_continue : ResultStatus → Bool
is_continue ResultStatus.continue = true
is_continue _ = false

abbrev pub is_needs_human : ResultStatus → Bool
is_needs_human ResultStatus.needs_human = true
is_needs_human _ = false

abbrev pub is_known_status : ResultStatus → Bool
is_known_status (ResultStatus.other_status s) = false
is_known_status _ = true

-- The outcome of a turn decision, and on a result the empty text where no decision was made.
pub data DecisionOutcome : Type 0 where
  undecided accept continue escalate : DecisionOutcome
  other_outcome : String → DecisionOutcome

pub data PausePhase : Type 0 where
  unset_phase requested draining completed : PausePhase
  other_phase : String → PausePhase

abbrev pub is_unset_phase : PausePhase → Bool
is_unset_phase PausePhase.unset_phase = true
is_unset_phase _ = false

abbrev pub is_completed_phase : PausePhase → Bool
is_completed_phase PausePhase.completed = true
is_completed_phase _ = false

abbrev pub is_known_phase : PausePhase → Bool
is_known_phase PausePhase.requested = true
is_known_phase PausePhase.draining = true
is_known_phase PausePhase.completed = true
is_known_phase _ = false

pub data MessageState : Type 0 where
  queued dispatched delivered : MessageState
  other_state : String → MessageState

abbrev pub is_queued : MessageState → Bool
is_queued MessageState.queued = true
is_queued _ = false

abbrev pub is_dispatched : MessageState → Bool
is_dispatched MessageState.dispatched = true
is_dispatched _ = false
