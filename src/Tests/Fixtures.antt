-- ===== src/Tests/Fixtures.antt =====
-- Concrete values for the tests: one workflow with one node, its session, an activity and attempts.
use durable_agent_handoff.Prelude.{String, true, false, none, some, List, [], ◌∷◌, ok, pos}
use durable_agent_handoff.Types.{
  Time, Sandbox, ExecutionMode, MilestoneKind, ResultStatus, RuntimeSpec, AuthoritySpec,
  FinalizerSpec, Budget, Node, Workflow, Session, Activity, OutputIdentity, Milestone, Attempt,
  Lease, State, empty_state,
}
use durable_agent_handoff.Environment.{Environment}
use durable_agent_handoff.Commands.Start.{StartExecutionInput}
use durable_agent_handoff.Journal.{Conditions, Command}
use durable_agent_handoff.Commands.Start.Starting.{start_execution}

abbrev pub test_env : Environment
test_env = record {
  short_digest = λ s. "x";
  canonical_path = λ p. ok p;
  json_strings = λ s. some [];
}

abbrev pub codex : RuntimeSpec
codex = record {
  name = "codex";
  executable = "codex";
  model = "m";
  effort = "";
  sandbox = Sandbox.read_only;
  arguments = "";
}

abbrev pub authority : AuthoritySpec
authority = record {
  requested_by = "alice";
  human_authorized = true;
  sandbox = Sandbox.read_only;
  allowed_roots = [];
}

abbrev pub no_finalizer : FinalizerSpec
no_finalizer = record { enabled = false; required_checks = []; require_human = false }

abbrev pub small_budget : Budget
small_budget = record { max_task_attempts = pos 3; max_launches = pos 12 }

abbrev pub start_input : StartExecutionInput
start_input = record {
  native_session = record { runtime = "codex"; id = "" };
  prompt = "do it";
  goal = "";
  runtime = codex;
  fallbacks = [];
  role = "";
  root = "/srv/repo";
  authority = authority;
  finalizer = no_finalizer;
  budget = small_budget;
  evaluator_model = "";
  max_turns = pos 0;
  wake_interval_seconds = pos 0;
  mode = ExecutionMode.turn_mode;
  supervision_interval_seconds = pos 0;
  prepare_command = "";
  idempotency_key = "start-0001";
}

abbrev pub start_command : Command
start_command = record {
  command_type = "StartExecution";
  idempotency_key = "start-0001";
  digest = ok "d1";
  decide = start_execution test_env "d1" start_input;
}

abbrev pub quiet : Conditions
quiet = record {
  cancelled = none;
  now = 5;
  after_validation = none;
  append = none;
  after_append = none;
  snapshot = none;
  after_snapshot = none;
}

abbrev pub node_named : String → List String → Node
node_named id dependencies = record {
  id = id;
  workflow_id = "w1";
  title = "work";
  work = record {
    kind = "agent";
    prompt = "do it";
    root = "/srv/repo";
    runtime = codex;
    fallbacks = [];
    prepare_command = "";
  };
  dependencies = dependencies;
  created_at = 1;
  superseded_at = 0;
}

abbrev pub goal_workflow : Workflow
goal_workflow = record {
  id = "w1";
  root = "/srv/repo";
  role = "";
  authority = authority;
  finalizer = no_finalizer;
  budget = small_budget;
  evaluator_model = "judge";
  max_turns = pos 4;
  wake_interval_seconds = pos 0;
  mode = ExecutionMode.turn_mode;
  supervision_interval_seconds = pos 0;
  old_goal = none;
  nodes = ("n1", node_named "n1" []) ∷ ("n2", node_named "n2" ("n1" ∷ [])) ∷ [];
  order = "n1" ∷ "n2" ∷ [];
  created_at = 1;
}

abbrev pub session : Session
session = record {
  id = "s1";
  workflow_id = "w1";
  native = record { runtime = "codex"; id = "native-1" };
  imported_unresolved = false;
  parent_id = "";
  root = "/srv/repo";
  created_at = 1;
}

abbrev pub activity : Activity
activity = record {
  id = "a1";
  workflow_id = "w1";
  node_id = "n1";
  session_id = "s1";
  generation = 1;
  parent_activity_id = "";
  prompt = "do it";
  dependency_bindings = [];
  not_before = none;
  created_at = 1;
}

abbrev pub outputs : OutputIdentity
outputs = record {
  stdout = "o";
  stderr = "e";
  result = "";
  stdout_path = "";
  stderr_path = "";
  result_path = "";
  exit_path = "";
}

abbrev pub milestone_of : MilestoneKind → Milestone
milestone_of k = record {
  kind = k;
  at = 7;
  session = none;
  process = some (record { pid = pos 42; start_token = "t"; tree_id = "" });
  effect = "";
  progress = "";
  result = some (record {
    status = ResultStatus.completed;
    summary = "done";
    blocker_kind = "";
    question = "";
  });
  failure = "";
  exit = some (record { code = pos 0; error = "" });
  source_type = "";
}

abbrev pub attempt_with : List Milestone → Attempt
attempt_with ms = record {
  id = "t1";
  activity_id = "a1";
  activity_generation = 1;
  ordinal = 1;
  runtime = codex;
  command_digest = "c";
  outputs = outputs;
  lease_id = "l1";
  created_at = 2;
  process = none;
  milestones = ms;
}

abbrev pub lease_until : Time → Lease
lease_until released = record {
  id = "l1";
  canonical_worktree = "/srv/repo";
  activity_id = "a1";
  activity_generation = 1;
  attempt_id = "t1";
  acquired_at = 2;
  released_at = released;
}

abbrev pub idle : State
idle = record empty_state {
  workflows = ("w1", goal_workflow) ∷ [];
  sessions = ("s1", session) ∷ [];
  activities = ("a1", activity) ∷ [];
}

-- With an attempt that has just been prepared.
abbrev pub launched : State
launched = record idle {
  attempts = ("t1", attempt_with []) ∷ [];
  leases = ("l1", lease_until 0) ∷ [];
}

-- With an attempt that has done its turn and exited.
abbrev pub finished : State
finished = record idle {
  attempts =
      (
        "t1",
        attempt_with (
            milestone_of MilestoneKind.process_spawned
            ∷ milestone_of MilestoneKind.turn_started
            ∷ milestone_of MilestoneKind.result
            ∷ milestone_of MilestoneKind.exit
            ∷ []),
      )
      ∷ [];
  leases = ("l1", lease_until 9) ∷ [];
}
