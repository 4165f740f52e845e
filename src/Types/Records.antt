-- ===== src/Types/Records.antt =====
-- The records of internal/supervisor/types.go: durable facts and identities.
use durable_agent_handoff.Prelude.{ℕ, ℤ, String, Bool, Option, List, Assoc, ◌==◌, ◌&&◌, eqb_ℤ}
use durable_agent_handoff.Types.Enums.{
  Time, ExecutionMode, FinalizationState, MilestoneKind, ResultStatus, DecisionOutcome, PausePhase,
  MessageState,
}
use durable_agent_handoff.Types.Specs.{
  RuntimeSpec, NativeSessionIdentity, AuthoritySpec, FinalizerSpec, Budget, WorkSpec,
}

pub record Execution : Type 0 where
  pub id : String
  pub workflow_id : String
  pub root_node_id : String
  pub session_id : String
  pub first_activity : String
  pub idempotency_key : String
  pub input_digest : String
  pub created_at : Time

pub record OldGoalSettings : Type 0 where
  pub enabled : Bool
  pub evaluator_model : String
  pub max_turns : ℤ

-- Desired work; `superseded_at` is zero until the node is superseded.
pub record Node : Type 0 where
  pub id : String
  pub workflow_id : String
  pub title : String
  pub work : WorkSpec
  pub dependencies : List String
  pub created_at : Time
  pub superseded_at : Time

pub record Workflow : Type 0 where
  pub id : String
  pub root : String
  pub role : String
  pub authority : AuthoritySpec
  pub finalizer : FinalizerSpec
  pub budget : Budget
  pub evaluator_model : String
  pub max_turns : ℤ
  pub wake_interval_seconds : ℤ
  pub mode : ExecutionMode
  pub supervision_interval_seconds : ℤ
  pub old_goal : Option OldGoalSettings
  pub nodes : Assoc Node
  pub order : List String
  pub created_at : Time

pub record Session : Type 0 where
  pub id : String
  pub workflow_id : String
  pub native : NativeSessionIdentity
  pub imported_unresolved : Bool
  pub parent_id : String
  pub root : String
  pub created_at : Time

pub record Finalization : Type 0 where
  pub id : String
  pub execution_id : String
  pub workflow_id : String
  pub idempotency_key : String
  pub repository : String
  pub pull_request : String
  pub gates : List String
  pub method : String
  pub human_approved : Bool
  pub head_sha : String
  pub pr_url : String
  pub state : FinalizationState
  pub summary : String
  pub prepared_at : Time
  pub completed_at : Time

pub record ResultBinding : Type 0 where
  pub dependency_node_id : String
  pub result_id : String

pub record Activity : Type 0 where
  pub id : String
  pub workflow_id : String
  pub node_id : String
  pub session_id : String
  pub generation : ℕ
  pub parent_activity_id : String
  pub prompt : String
  pub dependency_bindings : List ResultBinding
  pub not_before : Option Time
  pub created_at : Time

pub record ProcessIdentity : Type 0 where
  pub pid : ℤ
  pub start_token : String
  pub tree_id : String

abbrev pub process_eq : ProcessIdentity → ProcessIdentity → Bool
process_eq a b = eqb_ℤ a.pid b.pid && a.start_token == b.start_token && a.tree_id == b.tree_id

pub record OutputIdentity : Type 0 where
  pub stdout : String
  pub stderr : String
  pub result : String
  pub stdout_path : String
  pub stderr_path : String
  pub result_path : String
  pub exit_path : String

pub record WorkerResult : Type 0 where
  pub status : ResultStatus
  pub summary : String
  pub blocker_kind : String
  pub question : String

pub record Exit : Type 0 where
  pub code : ℤ
  pub error : String

pub record Milestone : Type 0 where
  pub kind : MilestoneKind
  pub at : Time
  pub session : Option NativeSessionIdentity
  pub process : Option ProcessIdentity
  pub effect : String
  pub progress : String
  pub result : Option WorkerResult
  pub failure : String
  pub exit : Option Exit
  pub source_type : String

-- One launch of an operating-system process; its milestones stand in the order of their events.
pub record Attempt : Type 0 where
  pub id : String
  pub activity_id : String
  pub activity_generation : ℕ
  pub ordinal : ℕ
  pub runtime : RuntimeSpec
  pub command_digest : String
  pub outputs : OutputIdentity
  pub lease_id : String
  pub created_at : Time
  pub process : Option ProcessIdentity
  pub milestones : List Milestone

pub record Result : Type 0 where
  pub id : String
  pub workflow_id : String
  pub node_id : String
  pub activity_id : String
  pub attempt_id : String
  pub generation : ℕ
  pub status : ResultStatus
  pub summary : String
  pub blocker_kind : String
  pub question : String
  pub decision : DecisionOutcome
  pub decided_by : String
  pub created_at : Time

pub record TurnDecision : Type 0 where
  pub outcome : DecisionOutcome
  pub reason : String
  pub model : String
  pub blocker_kind : String
  pub question : String

pub record Pause : Type 0 where
  pub workflow_id : String
  pub phase : PausePhase
  pub requested_by : String
  pub fenced_attempt_ids : List String
  pub released_lease_ids : List String
  pub requested_at : Time
  pub completed_at : Time

pub record Message : Type 0 where
  pub id : String
  pub session_id : String
  pub activity_id : String
  pub attempt_id : String
  pub body : String
  pub from : String
  pub state : MessageState
  pub delivery_generation : ℕ
  pub created_at : Time
  pub settled_at : Time

-- The writer lease of a worktree; `released_at` is zero while it is held.
pub record Lease : Type 0 where
  pub id : String
  pub canonical_worktree : String
  pub activity_id : String
  pub activity_generation : ℕ
  pub attempt_id : String
  pub acquired_at : Time
  pub released_at : Time

pub record Control : Type 0 where
  pub id : String
  pub kind : String
  pub actor : String
  pub activity_id : String
  pub expected_generation : ℕ
  pub expected_attempt_id : String
  pub accepted : Bool
  pub reason : String
  pub applied_at : Time
  pub created_at : Time

pub record IdempotencyRecord : Type 0 where
  pub key : String
  pub command_type : String
  pub input_digest : String
  pub resource_id : String
  pub sequence : ℕ

pub record LegacyImport : Type 0 where
  pub source_digest : String
  pub source_root : String
  pub imported_at : Time
  pub records : ℕ
  pub files : Assoc String
