-- ===== src/Types/Store.antt =====
-- State of internal/supervisor/types.go: the reducer's projection, maps over one journal.
use durable_agent_handoff.Prelude.{ℕ, List, [], Assoc}
use durable_agent_handoff.Types.Records.{
  Execution, Workflow, Session, Activity, Attempt, Result, Message, Lease, Control, Pause,
  Finalization, IdempotencyRecord, LegacyImport,
}
use durable_agent_handoff.Types.Specs.{RuntimeSpec}

-- State.Version is the constant schema version of the projection, and is left out.
pub record State : Type 0 where
  pub sequence : ℕ
  pub executions : Assoc Execution
  pub workflows : Assoc Workflow
  pub sessions : Assoc Session
  pub activities : Assoc Activity
  pub attempts : Assoc Attempt
  pub results : Assoc Result
  pub messages : Assoc Message
  pub leases : Assoc Lease
  pub controls : Assoc Control
  pub pauses : Assoc Pause
  pub finalizations : Assoc Finalization
  pub role_ladders : Assoc (List RuntimeSpec)
  pub idempotency : Assoc IdempotencyRecord
  pub legacy_imports : Assoc LegacyImport

abbrev pub schema_version : ℕ
schema_version = 2

unfoldable pub empty_state : State
empty_state = record {
  sequence = 0;
  executions = [];
  workflows = [];
  sessions = [];
  activities = [];
  attempts = [];
  results = [];
  messages = [];
  leases = [];
  controls = [];
  pauses = [];
  finalizations = [];
  role_ladders = [];
  idempotency = [];
  legacy_imports = [];
}
