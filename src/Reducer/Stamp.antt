-- ===== src/Reducer/Stamp.antt =====
-- The sequence and the idempotency records are no part of what the domain events read or write, nor
-- of what validateState checks. Execute rests on it: it validates an entry that has no sequence yet.
use durable_agent_handoff.Prelude.{
  ℕ, String, ◌≡◌, refl, sym, ap, ◌∙◌, inl, inr, List, [], ◌∷◌, arith, Assoc, put, if◌then◌else◌, ok,
  map_ok, >>=-eq-ok, Fallible-cases,
}
use durable_agent_handoff.Types.{is_zero, Lease, IdempotencyRecord, State}
use durable_agent_handoff.Environment.{Environment}
use durable_agent_handoff.Reducer.Validate.{
  validate_state, validate_leases, validate_lease, validate_activity, validate_attempt,
  validate_pause, validate_result, validate_finalization,
}
use durable_agent_handoff.Events.{DomainEvent}
use durable_agent_handoff.Reducer.{apply_domain_event, apply_events}
use durable_agent_handoff.Reducer.Work.{
  apply_execution_started, apply_node_added, apply_node_superseded, apply_activity_queued,
  apply_fallback_queued, apply_role_ladder_set, apply_legacy_imported,
}
use durable_agent_handoff.Reducer.Runs.{
  apply_attempt_prepared, apply_milestone, apply_result_created, apply_lease_released,
  apply_control_recorded, apply_control_applied, apply_workflow_paused, apply_pause_settled,
}
use durable_agent_handoff.Reducer.Effects.{
  apply_finalization_prepared, apply_finalization_settled, apply_message_queued,
  apply_message_dispatched, apply_message_settled,
}

abbrev pub stamp : ℕ → Assoc IdempotencyRecord → State → State
stamp n m s = record s { sequence = n; idempotency = m }

apply_domain_event-stamp :
    (n : ℕ) (m : Assoc IdempotencyRecord) (s : State) (e : DomainEvent)
    → apply_domain_event (stamp n m s) e ≡ map_ok (stamp n m) (apply_domain_event s e)
unfolding apply_domain_event apply_execution_started apply_node_added apply_node_superseded
    apply_activity_queued apply_fallback_queued apply_role_ladder_set apply_legacy_imported
    apply_attempt_prepared apply_milestone apply_result_created apply_lease_released
    apply_control_recorded apply_control_applied apply_workflow_paused apply_pause_settled
    apply_finalization_prepared apply_finalization_settled apply_message_queued
    apply_message_dispatched apply_message_settled
apply_domain_event-stamp n m s (DomainEvent.undecodable t) = refl
apply_domain_event-stamp n m s e = ground arith

-- Nor do they depend on what other events do to them.
pub apply_events-stamp :
    (n : ℕ) (m : Assoc IdempotencyRecord) (s : State) (es : List DomainEvent)
    → apply_events (stamp n m s) es ≡ map_ok (stamp n m) (apply_events s es)
unfolding apply_events
apply_events-stamp n m s [] = refl
apply_events-stamp n m s (e ∷ es) =
    rw (apply_domain_event-stamp n m s e) (elim (Fallible-cases (apply_domain_event s e)) [
      | inl (t, h) ↦ rw h (apply_events-stamp n m t es)
      | inr (x, h) ↦ rw h refl
    ])

-- The events leave the stamp as it was.
apply_domain_event-keeps :
    (s t : State) (e : DomainEvent)
    → apply_domain_event s e ≡ ok t
    → (t.sequence ≡ s.sequence) × (t.idempotency ≡ s.idempotency)
apply_domain_event-keeps s t e h =
    let kept : ok t ≡ map_ok (stamp s.sequence s.idempotency) (ok t) =
      sym h
      ∙ apply_domain_event-stamp s.sequence s.idempotency s e
      ∙ ap (map_ok (stamp s.sequence s.idempotency)) h in
    (ground (arith, kept), ground (arith, kept))

pub apply_events-keeps :
    (s t : State) (es : List DomainEvent)
    → apply_events s es ≡ ok t
    → (t.sequence ≡ s.sequence) × (t.idempotency ≡ s.idempotency)
unfolding apply_events
apply_events-keeps s t [] h = ground arith
apply_events-keeps s t (e ∷ es) h =
    let (u, hu, ht) = >>=-eq-ok (apply_domain_event s e) (λ u. apply_events u es) h in
    let (a, b) = apply_domain_event-keeps s u e hu in
    let (c, d) = apply_events-keeps u t es ht in (c ∙ a, d ∙ b)

validate_leases-stamp :
    (n : ℕ) (m : Assoc IdempotencyRecord) (s : State) (roots : Assoc String) (ls : Assoc Lease)
    → validate_leases (stamp n m s) roots ls ≡ validate_leases s roots ls
unfolding validate_leases validate_lease
validate_leases-stamp n m s roots [] = refl
validate_leases-stamp n m s roots ((id, l) ∷ ls) =
    let roots' = (if is_zero l.released_at then put l.canonical_worktree id roots else roots) in
    rw (validate_leases-stamp n m s roots' ls) refl

-- A state is valid whatever its sequence and its idempotency records.
pub validate_state-stamp :
    (env : Environment) (n : ℕ) (m : Assoc IdempotencyRecord) (s : State)
    → validate_state env (stamp n m s) ≡ validate_state env s
unfolding validate_state validate_activity validate_attempt validate_pause validate_result
    validate_finalization
validate_state-stamp env n m s = rw (validate_leases-stamp n m s [] s.leases) refl
