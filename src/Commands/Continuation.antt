-- ===== src/Commands/Continuation.antt =====
-- continueSessionCommand and startFallbackActivityCommand of internal/supervisor/commands.go: a new
-- activity on the exact session of a finished one, or on a new session of another provider.
use durable_agent_handoff.Prelude.{
  String, Bool, false, not, ◌&&◌, ◌||◌, Option, none, some, [], ◌∷◌, ◌==◌, blank, lookup, values,
  is_some, is_none, any, find, invalid, ok, ◌>>=◌, ◌>>◌, refuse, or_fail,
}
use durable_agent_handoff.Types.{Time, MessageState, RuntimeSpec, Activity, State}
use durable_agent_handoff.Environment.{Environment, stable_id}
use durable_agent_handoff.Events.{DomainEvent}
use durable_agent_handoff.Runtimes.{runtime_allowed}
use durable_agent_handoff.Queries.{result_for_activity, next_activity_generation, next_uint64}
use durable_agent_handoff.Commands.{Decision}

pub record ContinueSessionInput : Type 0 where
  pub execution_id : String
  pub session_id : String
  pub predecessor_activity_id : String
  pub from : String
  pub message : String
  pub idempotency_key : String

pub record StartFallbackActivityInput : Type 0 where
  pub parent_activity_id : String
  pub runtime : RuntimeSpec
  pub idempotency_key : String

unfoldable pub continued_activity :
    Environment → ContinueSessionInput → State → Activity → Time → Activity
continued_activity env i s predecessor now = record {
  id = stable_id env "activity" i.idempotency_key;
  workflow_id = predecessor.workflow_id;
  node_id = predecessor.node_id;
  session_id = predecessor.session_id;
  generation = next_activity_generation s predecessor.node_id (next_uint64 predecessor.generation);
  parent_activity_id = predecessor.id;
  prompt = i.message;
  dependency_bindings = predecessor.dependency_bindings;
  not_before = none;
  created_at = now;
}

unfoldable pub continue_session : Environment → ContinueSessionInput → State → Time → Decision
unfolding continued_activity
continue_session env i s now = do
  execution ←
      or_fail (lookup i.execution_id s.executions)
        (invalid "continuation must name the execution's exact session lineage and predecessor")
  session ←
      or_fail (lookup i.session_id s.sessions)
        (invalid "continuation must name the execution's exact session lineage and predecessor")
  predecessor ←
      or_fail (lookup i.predecessor_activity_id s.activities)
        (invalid "continuation must name the execution's exact session lineage and predecessor")
  refuse
      (not (execution.workflow_id == session.workflow_id)
        || not (predecessor.workflow_id == execution.workflow_id)
        || not (predecessor.session_id == i.session_id))
      (invalid "continuation must name the execution's exact session lineage and predecessor")
  refuse (session.imported_unresolved || blank session.native.id)
      (invalid "continuation requires a previously bound exact native Session")
  refuse (blank i.from || blank i.message) (invalid "reply sender and message are required")
  refuse (is_none (result_for_activity s predecessor.id))
      (invalid "continuation predecessor has no immutable completed result")
  ok (
    DomainEvent.activity_queued (some (continued_activity env i s predecessor now))
        ∷ DomainEvent.message_queued (
            some (record {
              id = stable_id env "message" i.idempotency_key;
              session_id = session.id;
              activity_id = stable_id env "activity" i.idempotency_key;
              attempt_id = "";
              body = i.message;
              from = i.from;
              state = MessageState.queued;
              delivery_generation = 0;
              created_at = now;
              settled_at = 0;
            }))
        ∷ [],
    stable_id env "activity" i.idempotency_key,
  )

-- A child of the parent whose session is of the runtime.
unfoldable pub is_fallback_of : State → String → String → Activity → Bool
is_fallback_of s parent_id runtime a =
    a.parent_activity_id == parent_id && (elim (lookup a.session_id s.sessions) [
      | none ↦ false
      | some x ↦ x.native.runtime == runtime
    ])

-- FindFallbackActivity
unfoldable pub find_fallback_activity : State → String → RuntimeSpec → Option Activity
unfolding is_fallback_of
find_fallback_activity s parent_id runtime =
    find (is_fallback_of s parent_id runtime.name) (values s.activities)

unfoldable pub start_fallback_activity :
    Environment → StartFallbackActivityInput → State → Time → Decision
unfolding is_fallback_of
start_fallback_activity env i s now = do
  parent ←
      or_fail (lookup i.parent_activity_id s.activities)
        (invalid "fallback requires an incomplete parent Activity")
  refuse (is_some (result_for_activity s parent.id))
      (invalid "fallback requires an incomplete parent Activity")
  w ←
      or_fail (lookup parent.workflow_id s.workflows)
        (invalid "fallback parent workflow does not exist")
  node ←
      or_fail (lookup parent.node_id w.nodes)
        (invalid "fallback parent has broken durable identity")
  session ←
      or_fail (lookup parent.session_id s.sessions)
        (invalid "fallback parent has broken durable identity")
  refuse session.imported_unresolved (invalid "fallback parent has broken durable identity")
  refuse (not (runtime_allowed node.work i.runtime))
      (invalid "fallback runtime is not an authorized Work candidate")
  refuse (i.runtime.name == session.native.runtime)
      (invalid "same-runtime retry must preserve the existing Session")
  refuse (any (is_fallback_of s parent.id i.runtime.name) (values s.activities))
      (invalid "fallback child already exists")
  ok (
    DomainEvent.fallback_queued
          (some (record {
            id = stable_id env "session" i.idempotency_key;
            workflow_id = w.id;
            native = record { runtime = i.runtime.name; id = "" };
            imported_unresolved = false;
            parent_id = session.id;
            root = session.root;
            created_at = now;
          }))
          (some (record {
            id = stable_id env "activity" i.idempotency_key;
            workflow_id = parent.workflow_id;
            node_id = parent.node_id;
            session_id = stable_id env "session" i.idempotency_key;
            generation = parent.generation;
            parent_activity_id = parent.id;
            prompt = parent.prompt;
            dependency_bindings = parent.dependency_bindings;
            not_before = none;
            created_at = now;
          }))
        ∷ [],
    stable_id env "activity" i.idempotency_key,
  )
