-- ===== src/Commands.antt =====
-- The commands of internal/supervisor/commands.go: each `decide` reads the state and returns the
-- events to append with the identity of the resource, or refuses. The idempotency key is an input.
pub mod Milestones
pub mod Record
pub mod Prepare
pub mod Turn
pub mod Pausing
pub mod Controls
pub mod Graph
pub mod Continuation
pub mod Start
pub mod Finalizer
pub mod Recovery
use durable_agent_handoff.Prelude.{String, Bool, ◌&&◌, List, map, ◌==◌, keep, Fallible}
use durable_agent_handoff.Types.{Time, is_dispatched, Message, State}
use durable_agent_handoff.Events.{DomainEvent}
use durable_agent_handoff.Queries.Ordered.{ordered_messages}

-- The events and the resource of a command.
abbrev pub Decision : Type 0
Decision = Fallible (List DomainEvent × String)

abbrev is_carried_by : String → String → Message → Bool
is_carried_by activity_id attempt_id m =
    m.activity_id == activity_id && m.attempt_id == attempt_id && is_dispatched m.state

-- settleMessages: every message that the attempt carries
unfoldable pub settle_messages : State → String → String → Bool → Time → List DomainEvent
settle_messages s activity_id attempt_id delivered at =
    map (λ m. DomainEvent.message_settled m.id delivered at)
      (keep (is_carried_by activity_id attempt_id) (ordered_messages s))
