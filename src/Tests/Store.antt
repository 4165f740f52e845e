-- ===== src/Tests/Store.antt =====
-- The journal at concrete commands, and the reducer's sequence-independent validation.
use durable_agent_handoff.Prelude.{
  String, ◌≡◌, refl, ap, ◌≢◌, inr, true, false, some, [], ◌∷◌, arith, eq_iff, blank, str_ltb,
  lookup, put, values, is_empty, idempotency_conflict, invalid, ok, err,
}
use durable_agent_handoff.Types.{State, empty_state}
use durable_agent_handoff.Environment.{stable_id}
use durable_agent_handoff.Paths.{within_root}
use durable_agent_handoff.Events.{DomainEvent, JournalEntry}
use durable_agent_handoff.Journal.{
  Conditions, Command, execute, projection, replay, last_sequence, plan, plan_fresh, carry_out,
  is_command_key, same_command,
}
use durable_agent_handoff.Journal.Durability.{IsReadable, runs, journal_stays-IsReadable}
use durable_agent_handoff.Journal.Idempotence.{
  IsRetried, retry_after_append, execute_conflict, failed_run_appends_nothing,
}
use durable_agent_handoff.Reducer.{apply_domain_event, apply_entry, record_of}
use durable_agent_handoff.Reducer.Validate.{
  validate_state, validate_leases, validate_activity, validate_workflow,
}
use durable_agent_handoff.Reducer.Dag.{validate_dag}
use durable_agent_handoff.Reducer.Work.{apply_execution_started}
use durable_agent_handoff.Runtimes.{validate_runtime}
use durable_agent_handoff.Commands.Start.{
  validate_start_input, check_identity, check_write_fallbacks, check_names, check_authorization,
  check_mode, check_goal, check_finalizer, check_roots,
}
use durable_agent_handoff.Commands.Start.Starting.{start_execution}
use durable_agent_handoff.Tests.Fixtures.{test_env, start_command, quiet}

empty_IsReadable : IsReadable test_env []
unfolding projection replay validate_state validate_leases last_sequence empty_state
empty_IsReadable = record { state = empty_state; projected = refl; numbered = refl }

abbrev stopped : Conditions
stopped = record quiet { after_validation = some (invalid "stopped") }

abbrev other_command : Command
other_command = record start_command { digest = ok "d2" }

abbrev e0 : JournalEntry
e0 = record {
  schema = 2;
  sequence = 1;
  command_type = "StartExecution";
  idempotency_key = "start-0001";
  input_digest = "d1";
  resource_id = "exec_1";
  at = 5;
  events = DomainEvent.retired ∷ [];
}

abbrev e0_state : State
e0_state = record empty_state { sequence = 1; idempotency = ("start-0001", record_of e0) ∷ [] }

journal_stays-IsReadable_example :
    IsReadable test_env (runs test_env ((quiet, start_command) ∷ (quiet, start_command) ∷ []) [])
journal_stays-IsReadable_example =
    journal_stays-IsReadable test_env ((quiet, start_command) ∷ (quiet, start_command) ∷ [])
      (omega arith)

started : is_empty (execute test_env quiet start_command []).0 ≡ false
unfolding execute plan carry_out plan_fresh replay is_command_key start_execution empty_state lookup
    apply_entry validate_state validate_start_input check_identity blank validate_runtime
    check_write_fallbacks check_names check_authorization check_mode check_goal check_finalizer
    check_roots apply_domain_event apply_execution_started validate_leases put validate_activity
    stable_id validate_workflow validate_dag str_ltb within_root values
started = refl

started_ledger : (execute test_env quiet start_command []).0 ≢ []
started_ledger h = ground (arith, started, ap is_empty h)

retry_after_append_example : IsRetried test_env quiet quiet start_command []
retry_after_append_example =
    retry_after_append test_env quiet quiet start_command [] empty_IsReadable
      (unfold last_sequence in omega arith) started_ledger refl

digests_differ : ◌≢◌ {A = String} "d1" "d2"
digests_differ h = let bad : false ≡ true = (eq_iff "d1" "d2").1 h in cc

execute_conflict_example :
    execute test_env quiet other_command (e0 ∷ []) ≡ (e0 ∷ [], err idempotency_conflict)
unfolding replay is_command_key same_command apply_entry lookup apply_domain_event put
execute_conflict_example =
    execute_conflict test_env quiet other_command "d2" (e0 ∷ []) e0_state (record_of e0) refl refl
      refl refl refl (inr digests_differ)

stops : (execute test_env stopped start_command []).1 ≡ err (invalid "stopped")
unfolding execute plan carry_out plan_fresh replay is_command_key start_execution empty_state lookup
    apply_entry validate_state validate_start_input check_identity blank validate_runtime
    check_write_fallbacks check_names check_authorization check_mode check_goal check_finalizer
    check_roots apply_domain_event apply_execution_started validate_leases put validate_activity
    stable_id validate_workflow validate_dag str_ltb within_root values
stops = refl

failed_run_appends_nothing_example : (execute test_env stopped start_command []).0 ≡ []
failed_run_appends_nothing_example =
    failed_run_appends_nothing test_env stopped start_command [] (invalid "stopped")
      empty_IsReadable (unfold last_sequence in omega arith) refl refl refl refl stops

inside : within_root "/srv/repo" "/srv/repo/a/../b" ≡ true
unfolding within_root
inside = refl

outside :
    (within_root "/srv/repo" "/srv/repository" ≡ false)
    × (within_root "/srv/repo" "/srv/repo/../x" ≡ false)
    × (within_root "/srv/repo" "/srv/repo" ≡ true)
unfolding within_root
outside = (refl, refl, refl)
