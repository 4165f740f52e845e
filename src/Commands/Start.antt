-- ===== src/Commands/Start.antt =====
-- startExecutionCommand and setRoleLadderCommand of internal/supervisor/commands.go, and the
-- normalisation of its input by Store.StartExecution.
pub mod Starting
pub mod Ladder
use durable_agent_handoff.Prelude.{
  String, Bool, true, false, not, ◌&&◌, ◌||◌, List, [], ◌∷◌, ◌==◌, blank, if◌then◌else◌, is_empty,
  any, invalid, Fallible, ok, ◌>>=◌, ◌>>◌, refuse, ℤ, pos, ltb_ℤ, eqb_ℤ,
}
use durable_agent_handoff.Types.{
  Sandbox, sandbox_eq, is_read_only, ExecutionMode, is_session_mode, RuntimeSpec,
  NativeSessionIdentity, AuthoritySpec, FinalizerSpec, Budget, Execution,
}
use durable_agent_handoff.Environment.{Environment, stable_id, canonical_directory}
use durable_agent_handoff.Events.{DomainEvent}
use durable_agent_handoff.Paths.{within_root}
use durable_agent_handoff.Runtimes.{validate_runtime, same_runtime}
use durable_agent_handoff.Reducer.Dag.{sort_strings}
use durable_agent_handoff.Commands.{Decision}

pub record StartExecutionInput : Type 0 where
  pub native_session : NativeSessionIdentity
  pub prompt : String
  pub goal : String
  pub runtime : RuntimeSpec
  pub fallbacks : List RuntimeSpec
  pub role : String
  pub root : String
  pub authority : AuthoritySpec
  pub finalizer : FinalizerSpec
  pub budget : Budget
  pub evaluator_model : String
  pub max_turns : ℤ
  pub wake_interval_seconds : ℤ
  pub mode : ExecutionMode
  pub supervision_interval_seconds : ℤ
  pub prepare_command : String
  pub idempotency_key : String

abbrev is_unset_mode : ExecutionMode → Bool
is_unset_mode ExecutionMode.unset_mode = true
is_unset_mode _ = false

abbrev is_other_mode : ExecutionMode → Bool
is_other_mode (ExecutionMode.other_mode m) = true
is_other_mode _ = false

abbrev is_negative : ℤ → Bool
is_negative n = ltb_ℤ n (pos 0)

abbrev is_zero_ℤ : ℤ → Bool
is_zero_ℤ n = eqb_ℤ n (pos 0)

unfoldable pub check_identity : StartExecutionInput → Fallible (Unit {0})
check_identity i = do
  refuse (blank i.idempotency_key || blank i.prompt)
      (invalid "idempotency key and prompt are required")
  refuse (blank i.native_session.runtime) (invalid "native session runtime is required")
  refuse (not (i.native_session.runtime == i.runtime.name))
      (invalid "native session runtime must match RuntimeSpec")

unfoldable pub check_write_fallbacks :
    Environment → Sandbox → List RuntimeSpec → Fallible (Unit {0})
check_write_fallbacks env authority [] = ok tt
check_write_fallbacks env authority (f ∷ fs) = validate_runtime env f >>= λ _.
    refuse (is_read_only authority && not (is_read_only f.sandbox))
      (invalid "read-only workflow cannot use a write-capable fallback")
    >>= λ _. check_write_fallbacks env authority fs

unfoldable pub check_names : List String → List RuntimeSpec → Fallible (Unit {0})
check_names seen [] = ok tt
check_names seen (f ∷ fs) =
    refuse (any (λ n. n == f.name) seen) (invalid "runtime fallback reuses provider identity")
    >>= λ _. check_names (f.name ∷ seen) fs

unfoldable pub check_authorization : StartExecutionInput → Fallible (Unit {0})
check_authorization i = do
  refuse (not i.authority.human_authorized || blank i.authority.requested_by)
      (invalid "StartExecution requires explicit human authorization")
  refuse (not (sandbox_eq i.authority.sandbox i.runtime.sandbox))
      (invalid "runtime authority must exactly match the authorized sandbox")
  refuse
      (ltb_ℤ i.budget.max_task_attempts (pos 1)
        || ltb_ℤ i.budget.max_launches i.budget.max_task_attempts)
      (invalid "budget requires positive task attempts and at least as many OS launches")

-- An unset mode counts as turn mode.
unfoldable pub check_mode : StartExecutionInput → Fallible (Unit {0})
check_mode i = do
  refuse (is_other_mode i.mode) (invalid "unsupported execution mode")
  refuse (is_negative i.supervision_interval_seconds)
      (invalid "supervision interval must not be negative")
  refuse
      (is_session_mode i.mode
        && (not (blank i.goal)
            || not (blank i.evaluator_model)
            || not (is_zero_ℤ i.max_turns)
            || not (is_zero_ℤ i.wake_interval_seconds)))
      (invalid "session mode cannot combine goal, evaluator, turn limit, or wake interval")
  refuse (not (is_session_mode i.mode) && not (is_zero_ℤ i.supervision_interval_seconds))
      (invalid "supervision interval requires session mode")

unfoldable pub check_goal : StartExecutionInput → Fallible (Unit {0})
check_goal i =
    if not (blank i.evaluator_model)
    then refuse (blank i.goal || is_negative i.max_turns || is_negative i.wake_interval_seconds)
        (invalid "a goal requires its text and evaluator model")
    else (do
      refuse (not (is_zero_ℤ i.max_turns)) (invalid "max turns requires an evaluator model")
      refuse (not (is_zero_ℤ i.wake_interval_seconds))
          (invalid "wake interval requires an evaluator model"))

unfoldable pub check_finalizer : FinalizerSpec → Fallible (Unit {0})
check_finalizer f = do
  refuse (f.enabled && is_empty f.required_checks)
      (invalid "enabled finalizer requires a non-empty set of external GitHub checks")
  refuse (f.enabled && any blank f.required_checks)
      (invalid "enabled finalizer requires non-empty external GitHub checks")

-- Whether a root is inside one of the authorized roots; every one of them is looked up.
unfoldable pub inside_roots : Environment → List String → String → Fallible Bool
inside_roots env [] root = ok false
inside_roots env (r ∷ rs) root = canonical_directory env r >>= λ canonical.
    inside_roots env rs root >>= λ rest. ok (within_root canonical root || rest)

unfoldable pub check_roots : Environment → StartExecutionInput → Fallible (Unit {0})
unfolding inside_roots
check_roots env i = do
  inside ← inside_roots env i.authority.allowed_roots i.root
  refuse (not (inside || is_empty i.authority.allowed_roots))
      (invalid "canonical execution root is outside the authorized roots")

unfoldable pub validate_start_input : Environment → StartExecutionInput → Fallible (Unit {0})
validate_start_input env i = do
  check_identity i
  validate_runtime env i.runtime
  check_write_fallbacks env i.authority.sandbox i.fallbacks
  check_names (i.runtime.name ∷ []) i.fallbacks
  check_authorization i
  check_mode i
  check_goal i
  check_finalizer i.finalizer
  check_roots env i
