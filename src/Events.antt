-- ===== src/Events.antt =====
-- The journal's vocabulary: the domain events of internal/supervisor/reducer.go with their
-- payloads, and the entries and receipts of internal/supervisor/journal.go. A payload pointer that
-- the JSON may leave out is an `Option`. Encoding and decoding by encoding/json is the identity.
use durable_agent_handoff.Prelude.{ℕ, String, Bool, Option, List}
use durable_agent_handoff.Types.{
  Time, FinalizationState, RuntimeSpec, Execution, Node, Workflow, Session, Finalization, Activity,
  Milestone, Attempt, Result, Pause, Message, Lease, Control, LegacyImport,
}

pub record ExecutionStarted : Type 0 where
  pub execution : Option Execution
  pub workflow : Option Workflow
  pub node : Option Node
  pub session : Option Session
  pub activity : Option Activity

pub record FinalizationSettled : Type 0 where
  pub id : String
  pub state : FinalizationState
  pub summary : String
  pub completed_at : Time
  pub pr_url : String

pub record LegacyImported : Type 0 where
  pub import : LegacyImport
  pub executions : List Execution
  pub workflows : List Workflow
  pub sessions : List Session
  pub activities : List Activity
  pub attempts : List Attempt
  pub results : List Result

pub data DomainEvent : Type 0 where
  execution_started : ExecutionStarted → DomainEvent
  node_added : Option Node → DomainEvent
  -- workflow, node, time
  node_superseded : String → String → Time → DomainEvent
  activity_queued : Option Activity → DomainEvent
  fallback_queued : Option Session → Option Activity → DomainEvent
  role_ladder_set : String → List RuntimeSpec → DomainEvent
  finalization_prepared : Option Finalization → DomainEvent
  finalization_settled : FinalizationSettled → DomainEvent
  attempt_prepared : Option Attempt → Option Lease → DomainEvent
  -- attempt, milestone
  milestone_recorded : String → Milestone → DomainEvent
  result_created : Option Result → DomainEvent
  message_queued : Option Message → DomainEvent
  -- message, attempt, delivery generation
  message_dispatched : String → String → ℕ → DomainEvent
  -- message, delivered, time
  message_settled : String → Bool → Time → DomainEvent
  -- lease, time
  lease_released : String → Time → DomainEvent
  control_recorded : Option Control → DomainEvent
  -- control, time
  control_applied : String → Time → DomainEvent
  workflow_paused : Option Pause → DomainEvent
  -- workflow, time
  pause_settled : String → Time → DomainEvent
  legacy_imported : LegacyImported → DomainEvent
  -- claim.created, evaluation.recorded and attestation.recorded of earlier releases
  retired : DomainEvent
  -- an event type that the reducer does not know
  unknown_event : String → DomainEvent
  -- a payload that json.Unmarshal refuses
  undecodable : String → DomainEvent

pub record JournalEntry : Type 0 where
  pub schema : ℕ
  pub sequence : ℕ
  pub command_type : String
  pub idempotency_key : String
  pub input_digest : String
  pub resource_id : String
  pub at : Time
  pub events : List DomainEvent

pub record Receipt : Type 0 where
  pub sequence : ℕ
  pub resource_id : String
  pub existing : Bool
