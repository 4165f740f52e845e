-- ===== src/Commands/Turn/Continuing.antt =====
-- How a goal goes on after a turn, of decideTurnCommand: the activity that waits on the session, or a
-- new one with its message.
use durable_agent_handoff.Prelude.{
  ◌<◌, String, ◌≡◌, ◌≢◌, true, false, none, some, List, [], ◌∷◌, ◌==◌, values, any, All,
}
use durable_agent_handoff.Types.{Activity, Result, Message, State}
use durable_agent_handoff.Environment.{Environment}
use durable_agent_handoff.Events.{DomainEvent}
use durable_agent_handoff.Queries.{result_for_activity}
use durable_agent_handoff.Queries.Ordered.{may_continue}

-- An activity that waits after another: a different one of the same workflow, node and session, among
-- those of the state, that has no result.
abbrev pub IsWaiting : State → Activity → Activity → Type 0
IsWaiting s b q =
    (any (λ a. a.id == q.id) (values s.activities) ≡ true)
    × (q.id ≢ b.id)
    × (q.workflow_id ≡ b.workflow_id)
    × (q.node_id ≡ b.node_id)
    × (q.session_id ≡ b.session_id)
    × (result_for_activity s q.id ≡ none)

-- How a goal goes on, after the result of the activity: with an activity of the session that waits
-- already, or, where none does, with a new one under the same workflow, node and session, of a later
-- generation than the node's, and its message.
pub data IsContinuation (s : State) (b : Activity) (d : List DomainEvent × String) : Type 0 where
  waiting :
      (queued : Activity) (r : Result)
      → IsWaiting s b queued
      → d ≡ (DomainEvent.result_created (some r) ∷ [], queued.id)
      → r.activity_id ≡ b.id
      → IsContinuation s b d
  queueing :
      (a : Activity) (m : Message) (r : Result)
      → any (may_continue s b) (values s.activities) ≡ false
      → d ≡ (
        DomainEvent.result_created (some r)
            ∷ DomainEvent.activity_queued (some a)
            ∷ DomainEvent.message_queued (some m)
            ∷ [],
        a.id,
      )
      → r.activity_id ≡ b.id
      → (a.workflow_id ≡ b.workflow_id)
        × (a.node_id ≡ b.node_id)
        × (a.session_id ≡ b.session_id)
        × (a.parent_activity_id ≡ b.id)
      → m.activity_id ≡ a.id
      → All
          (λ x. (x.node_id == b.node_id) ≡ true → x.generation < a.generation)
          (values s.activities)
      → IsContinuation s b d
