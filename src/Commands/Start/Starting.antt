-- ===== src/Commands/Start/Starting.antt =====
-- Store.StartExecution of internal/supervisor/commands.go: the canonical form of its input, and the
-- decision that starts a workflow with its root node, session and first activity.
use durable_agent_handoff.Prelude.{
  String, Bool, false, ◌&&◌, none, some, List, [], ◌∷◌, map, ◌==◌, blank, trim_space, if◌then◌else◌,
  invalid, Fallible, ok, ◌>>=◌, ◌>>◌, refuse, pos, eqb_ℤ, join,
}
use durable_agent_handoff.Types.{Time, Sandbox, sandbox_eq, ExecutionMode, Budget, State}
use durable_agent_handoff.Environment.{Environment, stable_id, canonical_directory}
use durable_agent_handoff.Events.{DomainEvent, ExecutionStarted}
use durable_agent_handoff.Paths.{within_root}
use durable_agent_handoff.Reducer.Dag.{sort_strings}
use durable_agent_handoff.Commands.{Decision}
use durable_agent_handoff.Commands.Start.{StartExecutionInput, validate_start_input}

-- uniqueStrings: drops what equals its predecessor
unfoldable pub drop_repeats : String → List String → List String
drop_repeats last [] = []
drop_repeats last (x ∷ xs) = let rest = drop_repeats x xs in if x == last then rest else x ∷ rest

unfoldable pub unique_strings : List String → List String
unfolding drop_repeats
unique_strings [] = []
unique_strings (x ∷ xs) = x ∷ drop_repeats x xs

canonical_directories : Environment → List String → Fallible (List String)
canonical_directories env [] = ok []
canonical_directories env (r ∷ rs) = canonical_directory env r >>= λ canonical.
    canonical_directories env rs >>= λ rest. ok (canonical ∷ rest)

abbrev default_budget : Budget
default_budget = record { max_task_attempts = pos 3; max_launches = pos 12 }

abbrev is_unset : Budget → Bool
is_unset b = eqb_ℤ b.max_task_attempts (pos 0) && eqb_ℤ b.max_launches (pos 0)

abbrev turn_by_default : ExecutionMode → ExecutionMode
turn_by_default ExecutionMode.unset_mode = ExecutionMode.turn_mode
turn_by_default m = m

-- The input that StartExecution hands to Execute, for a store under a state root.
unfoldable pub canonical_input :
    Environment → String → StartExecutionInput → Fallible StartExecutionInput
unfolding canonical_directories
canonical_input env state_root i = do
  root ← canonical_directory env i.root
  refuse (sandbox_eq i.runtime.sandbox Sandbox.workspace_write && within_root root state_root)
      (invalid "Supervisor state root must be outside a workspace-write execution root")
  roots ← canonical_directories env i.authority.allowed_roots
  ok (record i {
    mode = turn_by_default i.mode;
    root = root;
    authority = record i.authority { allowed_roots = unique_strings (sort_strings roots) };
    finalizer = record i.finalizer {
      required_checks = unique_strings (sort_strings (map trim_space i.finalizer.required_checks));
    };
    budget = if is_unset i.budget then default_budget else i.budget;
  })

abbrev title_of : String → String
title_of goal = if blank goal then "Root execution" else goal

unfoldable pub started : Environment → String → StartExecutionInput → Time → ExecutionStarted
started env digest i now = record {
  execution = some (record {
    id = stable_id env "exec" i.idempotency_key;
    workflow_id = stable_id env "workflow" i.idempotency_key;
    root_node_id = stable_id env "node" i.idempotency_key;
    session_id = stable_id env "session" i.idempotency_key;
    first_activity = stable_id env "activity" (join i.idempotency_key "/1");
    idempotency_key = i.idempotency_key;
    input_digest = digest;
    created_at = now;
  });
  workflow = some (record {
    id = stable_id env "workflow" i.idempotency_key;
    root = i.root;
    role = i.role;
    authority = i.authority;
    finalizer = i.finalizer;
    budget = i.budget;
    evaluator_model = i.evaluator_model;
    max_turns = i.max_turns;
    wake_interval_seconds = i.wake_interval_seconds;
    mode = i.mode;
    supervision_interval_seconds = i.supervision_interval_seconds;
    old_goal = none;
    nodes = [];
    order = [];
    created_at = now;
  });
  node = some (record {
    id = stable_id env "node" i.idempotency_key;
    workflow_id = stable_id env "workflow" i.idempotency_key;
    title = title_of i.goal;
    work = record {
      kind = "agent";
      prompt = i.prompt;
      root = i.root;
      runtime = i.runtime;
      fallbacks = i.fallbacks;
      prepare_command = i.prepare_command;
    };
    dependencies = [];
    created_at = now;
    superseded_at = 0;
  });
  session = some (record {
    id = stable_id env "session" i.idempotency_key;
    workflow_id = stable_id env "workflow" i.idempotency_key;
    native = i.native_session;
    imported_unresolved = false;
    parent_id = "";
    root = i.root;
    created_at = now;
  });
  activity = some (record {
    id = stable_id env "activity" (join i.idempotency_key "/1");
    workflow_id = stable_id env "workflow" i.idempotency_key;
    node_id = stable_id env "node" i.idempotency_key;
    session_id = stable_id env "session" i.idempotency_key;
    generation = 1;
    parent_activity_id = "";
    prompt = i.prompt;
    dependency_bindings = [];
    not_before = none;
    created_at = now;
  });
}

-- The digest is that of the command.
unfoldable pub start_execution :
    Environment → String → StartExecutionInput → State → Time → Decision
unfolding started
start_execution env digest i s now = do
  validate_start_input env i
  ok (
    DomainEvent.execution_started (started env digest i now) ∷ [],
    stable_id env "exec" i.idempotency_key,
  )
