-- ===== src/Journal.antt =====
-- internal/supervisor/journal.go: Store.Execute, the only operation that changes state, and
-- Store.Projection, Store.Events and Store.View's replay. The ledger (internal/secureledger) is the
-- list of its records, oldest first; json.Marshal and json.Unmarshal of entries and states are the
-- identity, so a cloned state is the state. A fault hook or a failure of the ledger is an argument.
pub mod Replay
pub mod Planning
pub mod Durability
pub mod Known
pub mod Idempotence
use durable_agent_handoff.Prelude.{
  ℕ, suc, String, Bool, true, false, not, ◌&&◌, ◌||◌, Option, none, some, List, [], ◌∷◌, ◌++◌, ◌==◌,
  lookup, ltb, leb, eqb, if◌then◌else◌, is_empty, keep, Error, idempotency_conflict, invalid,
  Fallible, ok, err, ◌>>=◌, ◌>>◌, refuse,
}
use durable_agent_handoff.Types.{Time, after, IdempotencyRecord, State, schema_version, empty_state}
use Prim.Native.Char.{code}
use durable_agent_handoff.Environment.{Environment}
use durable_agent_handoff.Events.{DomainEvent, JournalEntry, Receipt}
use durable_agent_handoff.Reducer.{apply_entry, next_sequence}
use durable_agent_handoff.Reducer.Validate.{validate_state}

-- The interface `command`.
pub record Command : Type 0 where
  pub command_type : String
  pub idempotency_key : String
  pub digest : Fallible String
  pub decide : State → Time → Fallible (List DomainEvent × String)

-- An append that fails before its write, or after it, where the record stays in the file.
pub data AppendFault : Type 0 where
  refused unconfirmed : Error → AppendFault

-- What a run of Execute meets: the clock, the limits of the ledger and the fault hooks.
pub record Conditions : Type 0 where
  -- ctx.Err()
  pub cancelled : Option Error
  pub now : Time
  pub after_validation : Option Error
  -- tx.Append fails
  pub append : Option AppendFault
  pub after_append : Option Error
  -- snapshot(tx, state)
  pub snapshot : Option Error
  pub after_snapshot : Option Error

abbrev pub Ledger : Type 0
Ledger = List JournalEntry

-- replayTxn and the fold of Projection. The ledger's walk refuses a gap in the sequence.
unfoldable pub replay_from : ℕ → State → Ledger → Fallible State
replay_from n s [] = ok s
replay_from n s (e ∷ es) =
    refuse (not (eqb e.sequence (next_sequence n))) (invalid "event sequence does not follow")
    >>= λ _. apply_entry s e >>= λ t. replay_from e.sequence t es

unfoldable pub replay : Ledger → Fallible State
unfolding replay_from empty_state
replay = replay_from 0 empty_state

unfoldable pub projection : Environment → Ledger → Fallible State
projection env ledger = do s ← replay ledger; validate_state env s; ok s

-- Events: what follows a sequence number.
unfoldable pub events_after : ℕ → Ledger → Ledger
events_after after ledger = keep (λ e. ltb after e.sequence) ledger

abbrev pub fault : Option Error → Fallible (Unit {0})
fault none = ok tt
fault (some e) = err e

abbrev is_word : ℕ → Bool
is_word c = (leb b'A' c && leb c b'Z') || (leb b'a' c && leb c b'z') || (leb b'0' c && leb c b'9')

abbrev is_key_char : ℕ → Bool
is_key_char c = is_word c || eqb c b'.' || eqb c b'_' || eqb c b':' || eqb c b'/' || eqb c b'-'

all_key_chars : String → Bool
all_key_chars String.[] = true
all_key_chars (String.◌∷◌ c s) = is_key_char (code c) && all_key_chars s

size : String → ℕ
size String.[] = 0
size (String.◌∷◌ c s) = suc (size s)

-- commandKeyPattern: a letter or digit, then 7 to 255 characters of a key
unfoldable pub is_command_key : String → Bool
unfolding all_key_chars size
is_command_key String.[] = false
is_command_key (String.◌∷◌ c s) =
    is_word (code c) && all_key_chars s && leb 7 (size s) && leb (size s) 255

-- repairTail: the sequence of the last record, after which the ledger numbers the next.
unfoldable pub sequence_from : ℕ → Ledger → ℕ
sequence_from n [] = n
sequence_from n (e ∷ es) = sequence_from e.sequence es

unfoldable pub last_sequence : Ledger → ℕ
unfolding sequence_from
last_sequence = sequence_from 0

abbrev pub entry_of : Command → String → Time → List DomainEvent → String → ℕ → JournalEntry
entry_of c digest now events resource sequence = record {
  schema = schema_version;
  sequence = sequence;
  command_type = c.command_type;
  idempotency_key = c.idempotency_key;
  input_digest = digest;
  resource_id = resource;
  at = now;
  events = events;
}

-- What is decided before the ledger is touched: the receipt of an earlier run, or the entry to
-- append, which does not have its sequence yet.
pub data Plan : Type 0 where
  known : Receipt → Plan
  fresh : State → JournalEntry → Plan

unfoldable pub same_command : IdempotencyRecord → Command → String → Bool
same_command prior c digest = prior.command_type == c.command_type && prior.input_digest == digest

unfoldable pub plan_known : IdempotencyRecord → Command → String → Fallible Plan
unfolding same_command
plan_known prior c digest =
    if same_command prior c digest
    then ok (
        Plan.known
          (record { sequence = prior.sequence; resource_id = prior.resource_id; existing = true }))
    else err idempotency_conflict

unfoldable pub plan_fresh : Environment → Conditions → Command → String → State → Fallible Plan
plan_fresh env k c digest s = do
  decided ← c.decide s k.now
  refuse (is_empty decided.0) (invalid "supervisor command produced no events")
  let entry = entry_of c digest k.now decided.0 decided.1 0
  clone ← apply_entry s entry
  validate_state env clone
  fault k.after_validation
  ok (Plan.fresh s entry)

unfoldable pub plan : Environment → Conditions → Command → Ledger → Fallible Plan
plan env k c ledger = do
  fault k.cancelled
  refuse (not (is_command_key c.idempotency_key)) (invalid "invalid idempotency key")
  digest ← c.digest
  s ← replay ledger
  elim (lookup c.idempotency_key s.idempotency) [
    | none ↦ plan_fresh env k c digest s
    | some prior ↦ plan_known prior c digest
  ]

-- What happens once the entry stands in the ledger.
unfoldable pub settle_append : Conditions → State → JournalEntry → Fallible Receipt
settle_append k s entry = do
  fault k.after_append
  t ← apply_entry s entry
  fault k.snapshot
  fault k.after_snapshot
  ok (record { sequence = entry.sequence; resource_id = entry.resource_id; existing = false })

-- The ledger and the outcome of a plan.
unfoldable pub carry_out : Conditions → Ledger → Fallible Plan → Ledger × Fallible Receipt
carry_out k ledger (err e) = (ledger, err e)
carry_out k ledger (ok (Plan.known r)) = (ledger, ok r)
carry_out k ledger (ok (Plan.fresh s entry)) =
    let numbered = record entry { sequence = next_sequence (last_sequence ledger) } in
    elim k.append [
      | some (AppendFault.refused e) ↦ (ledger, err e)
      | some (AppendFault.unconfirmed e) ↦ (ledger ++ numbered ∷ [], err e)
      | none ↦ (ledger ++ numbered ∷ [], settle_append k s numbered)
    ]

unfoldable pub execute : Environment → Conditions → Command → Ledger → Ledger × Fallible Receipt
execute env k c ledger = carry_out k ledger (plan env k c ledger)
