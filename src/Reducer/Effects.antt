-- ===== src/Reducer/Effects.antt =====
-- applyDomainEvent of internal/supervisor/reducer.go, the events of publications and messages.
use durable_agent_handoff.Prelude.{
  ℕ, String, Bool, true, false, not, ◌||◌, Option, ◌==◌, blank, lookup, put, if◌then◌else◌, is_some,
  is_empty, invalid, Fallible, ok, ◌>>=◌, ◌>>◌, refuse, or_fail,
}
use durable_agent_handoff.Types.{
  Time, is_zero, is_prepared, is_settled, MessageState, is_queued, is_dispatched, Finalization,
  Message, State,
}
use durable_agent_handoff.Events.{FinalizationSettled}

unfoldable pub apply_finalization_prepared : State → Option Finalization → Fallible State
apply_finalization_prepared s finalization = do
  f ← or_fail finalization (invalid "finalization preparation is incomplete or duplicate")
  refuse (is_some (lookup f.id s.finalizations))
      (invalid "finalization preparation is incomplete or duplicate")
  e ←
      or_fail (lookup f.execution_id s.executions)
        (invalid "finalization preparation is incomplete")
  refuse
      (not (e.workflow_id == f.workflow_id)
        || blank f.repository
        || blank f.pull_request
        || blank f.head_sha
        || is_empty f.gates
        || not (is_prepared f.state)
        || is_zero f.prepared_at
        || not (is_zero f.completed_at))
      (invalid "finalization preparation is incomplete")
  ok (record s { finalizations = put f.id f s.finalizations })

unfoldable pub settle : Finalization → FinalizationSettled → Finalization
settle f d = record f {
  state = d.state;
  summary = d.summary;
  pr_url = if blank d.pr_url then f.pr_url else d.pr_url;
  completed_at = d.completed_at;
}

unfoldable pub apply_finalization_settled : State → FinalizationSettled → Fallible State
unfolding settle
apply_finalization_settled s d = do
  f ←
      or_fail (lookup d.id s.finalizations)
        (invalid "finalization settlement targets an invalid preparation")
  refuse
      (not (is_prepared f.state)
        || not (is_settled d.state)
        || blank d.summary
        || is_zero d.completed_at)
      (invalid "finalization settlement targets an invalid preparation")
  ok (record s { finalizations = put d.id (settle f d) s.finalizations })

unfoldable pub apply_message_queued : State → Option Message → Fallible State
apply_message_queued s message = do
  m ← or_fail message (invalid "message event is incomplete or duplicate")
  refuse (is_some (lookup m.id s.messages)) (invalid "message event is incomplete or duplicate")
  ok (record s { messages = put m.id m s.messages })

unfoldable pub apply_message_dispatched : State → String → String → ℕ → Fallible State
apply_message_dispatched s message_id attempt_id generation = do
  m ← or_fail (lookup message_id s.messages) (invalid "dispatch targets a non-queued message")
  refuse (not (is_queued m.state)) (invalid "dispatch targets a non-queued message")
  ok (record s {
    messages =
        put message_id
          (record m {
            state = MessageState.dispatched;
            attempt_id = attempt_id;
            delivery_generation = generation;
          })
          s.messages;
  })

-- A message that was not delivered goes back to the queue.
unfoldable pub settle_message : Message → Bool → Time → Message
settle_message m true at = record m { settled_at = at; state = MessageState.delivered }
settle_message m false at = record m {
  settled_at = at;
  state = MessageState.queued;
  attempt_id = "";
}

unfoldable pub apply_message_settled : State → String → Bool → Time → Fallible State
unfolding settle_message
apply_message_settled s message_id delivered at = do
  m ← or_fail (lookup message_id s.messages) (invalid "settlement targets a non-dispatched message")
  refuse (not (is_dispatched m.state)) (invalid "settlement targets a non-dispatched message")
  ok (record s { messages = put message_id (settle_message m delivered at) s.messages })
