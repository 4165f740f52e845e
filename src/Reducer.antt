-- ===== src/Reducer.antt =====
-- applyEntry and applyDomainEvent of internal/supervisor/reducer.go: the reduction of a journal
-- entry. An error leaves no state behind, since every caller drops a state that it failed to reduce.
pub mod Work
pub mod Runs
pub mod Effects
pub mod Dag
pub mod Validate
pub mod Stamp
pub mod Held
use durable_agent_handoff.Prelude.{
  ℕ, ◌+◌, ◌%◌, ◌^◌, Bool, false, not, ◌&&◌, ◌||◌, Option, none, some, List, [], ◌∷◌, ◌==◌, lookup,
  put, eqb, if◌then◌else◌, invalid, Fallible, ok, err, ◌>>=◌, ◌>>◌, refuse,
}
use durable_agent_handoff.Types.{IdempotencyRecord, State, schema_version}
use durable_agent_handoff.Events.{DomainEvent, JournalEntry}
use Work.{
  apply_execution_started, apply_node_added, apply_node_superseded, apply_activity_queued,
  apply_fallback_queued, apply_role_ladder_set, apply_legacy_imported,
}
use Runs.{
  apply_attempt_prepared, apply_milestone, apply_result_created, apply_lease_released,
  apply_control_recorded, apply_control_applied, apply_workflow_paused, apply_pause_settled,
}
use Effects.{
  apply_finalization_prepared, apply_finalization_settled, apply_message_queued,
  apply_message_dispatched, apply_message_settled,
}

unfoldable pub apply_domain_event : State → DomainEvent → Fallible State
apply_domain_event s (DomainEvent.execution_started d) = apply_execution_started s d
apply_domain_event s (DomainEvent.node_added n) = apply_node_added s n
apply_domain_event s (DomainEvent.node_superseded w n t) = apply_node_superseded s w n t
apply_domain_event s (DomainEvent.activity_queued a) = apply_activity_queued s a
apply_domain_event s (DomainEvent.fallback_queued x a) = apply_fallback_queued s x a
apply_domain_event s (DomainEvent.role_ladder_set r cs) = apply_role_ladder_set s r cs
apply_domain_event s (DomainEvent.finalization_prepared f) = apply_finalization_prepared s f
apply_domain_event s (DomainEvent.finalization_settled f) = apply_finalization_settled s f
apply_domain_event s (DomainEvent.attempt_prepared a l) = apply_attempt_prepared s a l
apply_domain_event s (DomainEvent.milestone_recorded a m) = apply_milestone s a m
apply_domain_event s (DomainEvent.result_created r) = apply_result_created s r
apply_domain_event s (DomainEvent.message_queued m) = apply_message_queued s m
apply_domain_event s (DomainEvent.message_dispatched m a g) = apply_message_dispatched s m a g
apply_domain_event s (DomainEvent.message_settled m d t) = apply_message_settled s m d t
apply_domain_event s (DomainEvent.lease_released l t) = apply_lease_released s l t
apply_domain_event s (DomainEvent.control_recorded c) = apply_control_recorded s c
apply_domain_event s (DomainEvent.control_applied c t) = apply_control_applied s c t
apply_domain_event s (DomainEvent.workflow_paused p) = apply_workflow_paused s p
apply_domain_event s (DomainEvent.pause_settled w t) = apply_pause_settled s w t
apply_domain_event s (DomainEvent.legacy_imported d) = apply_legacy_imported s d
apply_domain_event s DomainEvent.retired = ok s
apply_domain_event s (DomainEvent.unknown_event t) = err (invalid "unknown supervisor domain event")
apply_domain_event s (DomainEvent.undecodable e) = err (invalid e)

-- for _, domain := range entry.Events
unfoldable pub apply_events : State → List DomainEvent → Fallible State
apply_events s [] = ok s
apply_events s (e ∷ es) = apply_domain_event s e >>= λ t. apply_events t es

-- state.Sequence+1, on uint64
abbrev pub next_sequence : ℕ → ℕ
next_sequence n = (n + 1) % 2 ^ 64

-- The idempotency record of an entry, and whether an earlier one under its key differs.
abbrev pub record_of : JournalEntry → IdempotencyRecord
record_of e = record {
  key = e.idempotency_key;
  command_type = e.command_type;
  input_digest = e.input_digest;
  resource_id = e.resource_id;
  sequence = e.sequence;
}

unfoldable pub diverges : Option IdempotencyRecord → JournalEntry → Bool
diverges none e = false
diverges (some prior) e =
    not (prior.command_type == e.command_type)
    || not (prior.input_digest == e.input_digest)
    || not (prior.resource_id == e.resource_id)

unfoldable pub record_sequence : State → ℕ → State
record_sequence s n = if eqb n 0 then s else record s { sequence = n }

unfoldable pub record_idempotency : State → JournalEntry → Fallible State
unfolding diverges
record_idempotency s e =
    if e.idempotency_key == ""
    then ok s
    else if diverges (lookup e.idempotency_key s.idempotency) e
    then err (invalid "journal contains divergent idempotency record")
    else ok (record s { idempotency = put e.idempotency_key (record_of e) s.idempotency })

unfoldable pub apply_entry : State → JournalEntry → Fallible State
unfolding apply_events record_sequence record_idempotency
apply_entry s e = do
  refuse (not (eqb e.schema schema_version)) (invalid "unsupported supervisor journal schema")
  refuse (not (eqb e.sequence 0) && not (eqb e.sequence (next_sequence s.sequence)))
      (invalid "supervisor journal sequence does not follow")
  t ← apply_events s e.events
  record_idempotency (record_sequence t e.sequence) e
