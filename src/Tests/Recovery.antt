-- ===== src/Tests/Recovery.antt =====
-- Recovery and publication at concrete inputs.
use durable_agent_handoff.Prelude.{
  ◌≡◌, refl, true, Option, none, some, List, [], ◌∷◌, map, is_space, blank, lookup, values, keep,
  All, Error, ok, ℤ, pos, eqb_ℤ,
}
use durable_agent_handoff.Types.{
  FinalizationState, MilestoneKind, Finalization, ProcessIdentity, Attempt, State, empty_state,
}
use durable_agent_handoff.Events.{DomainEvent}
use durable_agent_handoff.Queries.{attempt_has_exit}
use durable_agent_handoff.Queries.Ordered.{ordered_messages, sort_by}
use durable_agent_handoff.Commands.{settle_messages}
use durable_agent_handoff.Commands.Milestones.{precedes_last, validate_kind, validate_milestone}
use durable_agent_handoff.Commands.Recovery.{
  Inspector, StartupRecovery, is_gone, exact_process_match, inspect_match, inherited, live_among,
  orphan_exit, check_recovery, fail_unspawned, recover, recover_all, reconcile,
}
use durable_agent_handoff.Commands.Recovery.Spared.{IsRecovered, reconcile-IsRecovered}
use durable_agent_handoff.Commands.Recovery.Divided.{
  recovery_for, is_left_behind, is_running_on, inherited-live,
}
use durable_agent_handoff.Gate.{
  Pr, Runner, check_gate, verify, inspect, Outcome, publish, merge_at_head, is_changed_to,
}
use durable_agent_handoff.Gate.Exact.{is_ok, is_ready, verify-is_ready, IsMerged, publish-IsMerged}
use durable_agent_handoff.Tests.Fixtures.{attempt_with, milestone_of, lease_until, idle}

-- Process 42 is there with its token, and no other process.
abbrev inspector : Inspector
inspector pid = ok ("t", eqb_ℤ pid (pos 42))

abbrev process : ℤ → ProcessIdentity
process pid = record { pid = pid; start_token = "t"; tree_id = "" }

abbrev spawned : ℤ → Attempt
spawned pid = record (attempt_with (milestone_of MilestoneKind.process_spawned ∷ [])) {
  process = some (process pid);
}

abbrev orphaned : State
orphaned = record idle {
  attempts = ("t1", spawned (pos 7)) ∷ [];
  leases = ("l1", lease_until 0) ∷ [];
}

abbrev recovery : StartupRecovery
recovery = record { attempt_id = "t1"; lease_id = "l1"; process = some (process (pos 7)) }

abbrev recovery_events : List DomainEvent
recovery_events =
    DomainEvent.milestone_recorded "t1" (orphan_exit 9) ∷ DomainEvent.lease_released "l1" 9 ∷ []

recovers :
    reconcile inspector (recovery ∷ []) orphaned 9 ≡ ok (recovery_events, "startup-reconcile")
unfolding reconcile recover_all recover check_recovery lookup attempt_has_exit is_gone
    exact_process_match blank inspect_match fail_unspawned validate_milestone precedes_last
    validate_kind settle_messages ordered_messages values sort_by is_space empty_state
recovers = refl

reconcile-IsRecovered_example :
    All (λ r. IsRecovered inspector orphaned 9 r recovery_events) (recovery ∷ [])
reconcile-IsRecovered_example =
    reconcile-IsRecovered inspector (recovery ∷ []) orphaned 9 recovery_events "startup-reconcile"
      recovers

abbrev survivors : List Attempt
survivors = spawned (pos 42) ∷ spawned (pos 7) ∷ attempt_with [] ∷ []

abbrev inherited_two : List StartupRecovery
inherited_two = recovery ∷ record { attempt_id = "t1"; lease_id = "l1"; process = none } ∷ []

inherits : inherited inspector survivors ≡ ok inherited_two
unfolding inherited attempt_has_exit is_gone exact_process_match blank inspect_match is_space
inherits = refl

inherited-live_example :
    (inherited_two ≡ map recovery_for (keep (is_left_behind inspector) survivors))
    × (live_among inspector survivors
        ≡ ok (map (λ a. a.id) (keep (is_running_on inspector) survivors)))
inherited-live_example = inherited-live inspector survivors inherited_two inherits

abbrev pull_request : Pr
pull_request = record {
  url = "u";
  head_oid = "abc";
  merge_state = "clean";
  state = "OPEN";
  merged_at = "";
  checks = record { name = "ci"; status = "completed"; conclusion = "success" } ∷ [];
}

abbrev gh : Runner
gh = record { view = λ arguments. ok pull_request; merge = λ arguments. ok tt }

abbrev prepared : Finalization
prepared = record {
  id = "f1";
  execution_id = "e1";
  workflow_id = "w1";
  idempotency_key = "publish-01";
  repository = "o/r";
  pull_request = "1";
  gates = "ci" ∷ [];
  method = "squash";
  human_approved = true;
  head_sha = "abc";
  pr_url = "u";
  state = FinalizationState.prepared;
  summary = "";
  prepared_at = 3;
  completed_at = 0;
}

verify-is_ready_example :
    is_ok (verify pull_request ("ci" ∷ [])) ≡ is_ready pull_request ("ci" ∷ [])
verify-is_ready_example = verify-is_ready pull_request ("ci" ∷ [])

publishes :
    publish gh prepared
    ≡ Outcome.settles FinalizationState.merged
        "merged after exact named gates passed on unchanged head" "u" none
unfolding publish verify check_gate is_changed_to merge_at_head blank is_space
publishes = refl

publish-IsMerged_example :
    (p : Pr) × (inspect gh "o/r" "1" ≡ ok p)
    × (◌≡◌ {A = Option Error} none none)
    × IsMerged gh prepared p
publish-IsMerged_example =
    publish-IsMerged gh prepared "merged after exact named gates passed on unchanged head" "u" none
      publishes
