-- ===== src/Commands/Prepare.antt =====
-- prepareAttemptCommand of internal/supervisor/commands.go: one launch of an activity, with the
-- writer lease of its worktree and the dispatch of the messages that wait for it.
pub mod Guards
use durable_agent_handoff.Prelude.{
  ℕ, String, Bool, true, false, not, ◌&&◌, ◌||◌, Option, none, some, List, [], ◌∷◌, map, ◌==◌,
  blank, lookup, values, eqb, if◌then◌else◌, is_some, any, keep, fenced, lease_held, invalid,
  panics, Fallible, ok, ◌>>=◌, ◌>>◌, refuse, or_fail, pos, leb_ℤ,
}
use durable_agent_handoff.Types.{
  Time, is_zero, after, is_read_only, is_queued, RuntimeSpec, Node, Workflow, Activity,
  OutputIdentity, Attempt, Lease, State,
}
use durable_agent_handoff.Environment.{Environment, stable_id}
use durable_agent_handoff.Events.{DomainEvent}
use durable_agent_handoff.Runtimes.{runtime_allowed}
use durable_agent_handoff.Queries.{
  result_for_activity, attempt_has_exit, launches_of, turns_of, raise_ordinal,
  next_delivery_generation,
}
use durable_agent_handoff.Queries.Ordered.{
  worker_result_for_activity, fallback_child, ordered_messages,
}
use durable_agent_handoff.Commands.{Decision}

pub record PrepareAttemptInput : Type 0 where
  pub activity_id : String
  pub expected_generation : ℕ
  pub runtime : RuntimeSpec
  pub command_digest : String
  pub outputs : OutputIdentity
  pub idempotency_key : String

abbrev pub is_scheduled_after : Option Time → Time → Bool
is_scheduled_after none now = false
is_scheduled_after (some t) now = not (is_zero t) && after t now

-- The activity is unfinished, of the expected generation, and not replaced by a fallback.
unfoldable pub check_activity : PrepareAttemptInput → State → Activity → Fallible (Unit {0})
check_activity i s activity = do
  refuse (not (eqb activity.generation i.expected_generation)) fenced
  refuse (is_some (result_for_activity s activity.id)) (invalid "completed Activity is immutable")
  refuse (is_some (worker_result_for_activity s activity.id))
      (invalid "worker turn is waiting for a decision")
  refuse (is_some (fallback_child s activity.id)) fenced
  refuse (blank i.command_digest || blank i.outputs.stdout || blank i.outputs.stderr)
      (invalid "attempt requires command digest and exact output identities")

abbrev pub chosen_runtime : PrepareAttemptInput → Node → RuntimeSpec
chosen_runtime i node = if i.runtime.name == "" then node.work.runtime else i.runtime

-- The workflow is authorized, and the runtime is one of the node's within the authority.
unfoldable pub check_authority :
    PrepareAttemptInput → State → Activity → Workflow → Option Node → Fallible Node
check_authority i s activity w found = do
  refuse
      (not w.authority.human_authorized || (elim (lookup activity.session_id s.sessions) [
        | none ↦ true
        | some x ↦ x.imported_unresolved
      ]))
      (invalid "Activity lacks human-authorized execution authority")
  node ← or_fail found panics
  refuse (is_read_only w.authority.sandbox && not (is_read_only node.work.runtime.sandbox))
      (invalid "Activity runtime exceeds Workflow authority")
  refuse (not (runtime_allowed node.work (chosen_runtime i node)))
      (invalid "Attempt runtime is not an authorized primary or fallback candidate")
  refuse (is_read_only w.authority.sandbox && not (is_read_only (chosen_runtime i node).sandbox))
      (invalid "Attempt fallback exceeds Workflow authority")
  ok node

abbrev pub is_live_for : String → Attempt → Bool
is_live_for activity_id a = a.activity_id == activity_id && not (attempt_has_exit a)

abbrev pub holds_worktree : String → Lease → Bool
holds_worktree worktree l = is_zero l.released_at && l.canonical_worktree == worktree

-- The budgets, the live attempts of the activity and the writers of the worktree.
unfoldable pub check_room : State → Activity → Workflow → Node → Fallible (Unit {0})
check_room s activity w node = do
  refuse (leb_ℤ w.budget.max_launches (pos (launches_of s activity.id)))
      (invalid "OS launch budget exhausted")
  refuse (leb_ℤ w.budget.max_task_attempts (pos (turns_of s activity.id)))
      (invalid "task-attempt budget exhausted")
  refuse (any (is_live_for activity.id) (values s.attempts))
      (invalid "Activity already has a live Attempt")
  refuse (any (holds_worktree node.work.root) (values s.leases)) lease_held

unfoldable pub new_attempt :
    Environment → PrepareAttemptInput → State → Activity → Node → Time → Attempt
new_attempt env i s activity node now = record {
  id = stable_id env "attempt" i.idempotency_key;
  activity_id = activity.id;
  activity_generation = activity.generation;
  ordinal = raise_ordinal activity.id 1 (values s.attempts);
  runtime = chosen_runtime i node;
  command_digest = i.command_digest;
  outputs = i.outputs;
  lease_id = stable_id env "lease" i.idempotency_key;
  created_at = now;
  process = none;
  milestones = [];
}

unfoldable pub new_lease : Environment → PrepareAttemptInput → Activity → Node → Time → Lease
new_lease env i activity node now = record {
  id = stable_id env "lease" i.idempotency_key;
  canonical_worktree = node.work.root;
  activity_id = activity.id;
  activity_generation = activity.generation;
  attempt_id = stable_id env "attempt" i.idempotency_key;
  acquired_at = now;
  released_at = 0;
}

unfoldable pub dispatches : Environment → PrepareAttemptInput → State → Activity → List DomainEvent
dispatches env i s activity =
    map
      (λ m.
        DomainEvent.message_dispatched m.id (stable_id env "attempt" i.idempotency_key)
          (next_delivery_generation s activity.session_id))
      (keep (λ m. m.activity_id == activity.id && is_queued m.state) (ordered_messages s))

unfoldable pub prepare_attempt : Environment → PrepareAttemptInput → State → Time → Decision
prepare_attempt env i s now = do
  activity ← or_fail (lookup i.activity_id s.activities) fenced
  check_activity i s activity
  w ← or_fail (lookup activity.workflow_id s.workflows) panics
  refuse (is_some (lookup activity.workflow_id s.pauses)) fenced
  refuse (is_scheduled_after activity.not_before now) (invalid "Activity is scheduled")
  node ← check_authority i s activity w (lookup activity.node_id w.nodes)
  check_room s activity w node
  ok (
    DomainEvent.attempt_prepared (some (new_attempt env i s activity node now))
          (some (new_lease env i activity node now))
        ∷ dispatches env i s activity,
    stable_id env "attempt" i.idempotency_key,
  )
