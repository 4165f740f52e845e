-- ===== src/Reducer/Held.antt =====
-- The events that write to the leases, and that all others leave them as they were.
use durable_agent_handoff.Prelude.{
  ◌≡◌, refl, ◌∙◌, Bool, true, false, List, [], ◌∷◌, ◌++◌, arith, any, ok, >>=-eq-ok,
}
use durable_agent_handoff.Types.{State}
use durable_agent_handoff.Events.{DomainEvent}
use durable_agent_handoff.Reducer.{apply_domain_event, apply_events}
use durable_agent_handoff.Reducer.Work.{
  apply_execution_started, apply_node_added, apply_node_superseded, apply_activity_queued,
  apply_fallback_queued, apply_role_ladder_set, apply_legacy_imported,
}
use durable_agent_handoff.Reducer.Runs.{
  apply_milestone, apply_result_created, apply_control_recorded, apply_control_applied,
  apply_workflow_paused, apply_pause_settled,
}
use durable_agent_handoff.Reducer.Effects.{
  apply_finalization_prepared, apply_finalization_settled, apply_message_queued,
  apply_message_dispatched, apply_message_settled,
}

-- The events that write to the leases.
abbrev pub writes_leases : DomainEvent → Bool
writes_leases (DomainEvent.attempt_prepared a l) = true
writes_leases (DomainEvent.lease_released l t) = true
writes_leases _ = false

leases-apply_domain_event :
    (s t : State) (e : DomainEvent)
    → writes_leases e ≡ false
    → apply_domain_event s e ≡ ok t
    → t.leases ≡ s.leases
unfolding apply_domain_event apply_execution_started apply_node_added apply_node_superseded
    apply_activity_queued apply_fallback_queued apply_role_ladder_set apply_legacy_imported
    apply_milestone apply_result_created apply_control_recorded apply_control_applied
    apply_workflow_paused apply_pause_settled apply_finalization_prepared apply_finalization_settled
    apply_message_queued apply_message_dispatched apply_message_settled
leases-apply_domain_event s t e w h = ground arith

pub leases-apply_events :
    (s t : State) (es : List DomainEvent)
    → any writes_leases es ≡ false
    → apply_events s es ≡ ok t
    → t.leases ≡ s.leases
unfolding apply_events
leases-apply_events s t [] w h = ground arith
leases-apply_events s t (e ∷ es) w h =
    let (u, hu, ht) = >>=-eq-ok (apply_domain_event s e) (λ u. apply_events u es) h in
    leases-apply_events u t es (ground arith) ht ∙ leases-apply_domain_event s u e (ground arith) hu

pub apply_events-append :
    (s t : State) (xs ys : List DomainEvent)
    → apply_events s (xs ++ ys) ≡ ok t
    → (u : State) × (apply_events s xs ≡ ok u) × (apply_events u ys ≡ ok t)
unfolding apply_events
apply_events-append s t [] ys h = (s, refl, h)
apply_events-append s t (x ∷ xs) ys h =
    let (v, hv, rest) = >>=-eq-ok (apply_domain_event s x) (λ v. apply_events v (xs ++ ys)) h in
    let (u, hu, ht) = apply_events-append v t xs ys rest in (u, ground (arith, hv, hu), ht)
