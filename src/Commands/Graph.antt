-- ===== src/Commands/Graph.antt =====
-- addNodeCommand and queueActivityCommand of internal/supervisor/commands.go.
use durable_agent_handoff.Prelude.{
  String, not, ◌&&◌, ◌||◌, none, some, List, [], ◌∷◌, ◌==◌, blank, lookup, values, if◌then◌else◌,
  is_some, is_none, any, invalid, Fallible, ok, ◌>>=◌, ◌>>◌, refuse, or_fail, for_each,
}
use durable_agent_handoff.Types.{Time, Sandbox, is_read_only, RuntimeSpec, WorkSpec, Node, State}
use durable_agent_handoff.Environment.{Environment, stable_id, canonical_directory}
use durable_agent_handoff.Events.{DomainEvent}
use durable_agent_handoff.Paths.{within_root}
use durable_agent_handoff.Runtimes.{validate_runtime}
use durable_agent_handoff.Queries.{dependency_bindings}
use durable_agent_handoff.Commands.{Decision}

pub record AddNodeInput : Type 0 where
  pub workflow_id : String
  pub node_id : String
  pub title : String
  pub work : WorkSpec
  pub dependencies : List String
  pub actor : String
  pub idempotency_key : String

pub record QueueActivityInput : Type 0 where
  pub workflow_id : String
  pub node_id : String
  pub session_id : String
  pub idempotency_key : String

-- Each fallback is valid, within the authority, and of a provider that is not named before.
unfoldable pub check_fallbacks :
    Environment → Sandbox → List String → List RuntimeSpec → Fallible (Unit {0})
check_fallbacks env authority seen [] = ok tt
check_fallbacks env authority seen (f ∷ fs) = validate_runtime env f >>= λ _.
    refuse (is_read_only authority && not (is_read_only f.sandbox))
      (invalid "read-only workflow cannot add write-capable fallback")
    >>= λ _.
        refuse (any (λ n. n == f.name) seen) (invalid "runtime fallback reuses provider identity")
        >>= λ _. check_fallbacks env authority (f.name ∷ seen) fs

unfoldable pub new_node : AddNodeInput → String → Time → Node
new_node i root now = record {
  id = i.node_id;
  workflow_id = i.workflow_id;
  title = i.title;
  work = record {
    kind = i.work.kind;
    prompt = i.work.prompt;
    root = root;
    runtime = i.work.runtime;
    fallbacks = i.work.fallbacks;
    prepare_command = i.work.prepare_command;
  };
  dependencies = i.dependencies;
  created_at = now;
  superseded_at = 0;
}

unfoldable pub add_node : Environment → AddNodeInput → State → Time → Decision
unfolding check_fallbacks new_node
add_node env i s now = do
  w ← or_fail (lookup i.workflow_id s.workflows) (invalid "workflow does not exist")
  refuse (blank i.actor || blank i.node_id || blank i.title)
      (invalid "actor, node id, and title are required")
  refuse (is_some (lookup i.node_id w.nodes)) (invalid "node identity already exists")
  root ← canonical_directory env (if i.work.root == "" then w.root else i.work.root)
  refuse (not (within_root w.root root))
      (invalid "node work root must be inside the canonical workflow root")
  validate_runtime env i.work.runtime
  check_fallbacks env w.authority.sandbox (i.work.runtime.name ∷ []) i.work.fallbacks
  refuse (is_read_only w.authority.sandbox && not (is_read_only i.work.runtime.sandbox))
      (invalid "read-only workflow cannot add write-capable work")
  for_each (λ d. refuse (is_none (lookup d w.nodes)) (invalid "dependency does not exist"))
      i.dependencies
  ok (DomainEvent.node_added (some (new_node i root now)) ∷ [], i.node_id)

unfoldable pub queue_activity : Environment → QueueActivityInput → State → Time → Decision
queue_activity env i s now = do
  w ←
      or_fail (lookup i.workflow_id s.workflows)
        (invalid "queue targets an unknown workflow, node, or session")
  node ←
      or_fail (lookup i.node_id w.nodes)
        (invalid "queue targets an unknown workflow, node, or session")
  session ←
      or_fail (lookup i.session_id s.sessions)
        (invalid "queue targets an unknown workflow, node, or session")
  refuse (not (session.workflow_id == i.workflow_id))
      (invalid "queue targets an unknown workflow, node, or session")
  refuse (any (λ a. a.node_id == i.node_id) (values s.activities))
      (invalid "desired work already has an Activity; continuations require ContinueSession")
  bindings ← dependency_bindings s node.workflow_id node.dependencies
  ok (
    DomainEvent.activity_queued (
          some (record {
            id = stable_id env "activity" i.idempotency_key;
            workflow_id = i.workflow_id;
            node_id = i.node_id;
            session_id = i.session_id;
            generation = 1;
            parent_activity_id = "";
            prompt = node.work.prompt;
            dependency_bindings = bindings;
            not_before = none;
            created_at = now;
          }))
        ∷ [],
    stable_id env "activity" i.idempotency_key,
  )
