-- ===== src/Journal/Known.antt =====
-- What a ledger knows of a command that it holds the entry of, and what a run leaves and reports.
use durable_agent_handoff.Prelude.{
  String, ◌≡◌, refl, ap, ◌⊎◌, inl, inr, true, false, Option, none, some, [], ◌∷◌, ◌++◌, arith,
  eq_refl, lookup, Error, Fallible, ok, err, Fallible-cases,
}
use durable_agent_handoff.Types.{IdempotencyRecord, State}
use durable_agent_handoff.Environment.{Environment}
use durable_agent_handoff.Events.{JournalEntry, Receipt}
use durable_agent_handoff.Reducer.{next_sequence, record_of}
use durable_agent_handoff.Journal.{
  Command, Conditions, AppendFault, Ledger, Plan, replay, last_sequence, plan, plan_known,
  same_command, carry_out, settle_append, execute, is_command_key,
}
use durable_agent_handoff.Journal.Planning.{IsFresh}
use durable_agent_handoff.Journal.Durability.{numbered_entry}

abbrev pub existing_receipt : IdempotencyRecord → Receipt
existing_receipt prior = record {
  sequence = prior.sequence;
  resource_id = prior.resource_id;
  existing = true;
}

-- What a ledger knows of a key, to a command with a valid key and a digest.
pub record Knows (c : Command) (digest : String) (ledger : Ledger) (prior : IdempotencyRecord)
    : Type 0 where
  pub state : State
  pub replayed : replay ledger ≡ ok state
  pub found : lookup c.idempotency_key state.idempotency ≡ some prior
  pub valid_key : is_command_key c.idempotency_key ≡ true
  pub digested : c.digest ≡ ok digest

pub plan-Knows :
    (env : Environment) (k : Conditions) (c : Command) (digest : String) (ledger : Ledger)
    (prior : IdempotencyRecord)
    → Knows c digest ledger prior
    → k.cancelled ≡ none
    → plan env k c ledger ≡ plan_known prior c digest
unfolding plan
plan-Knows env k c digest ledger prior w n =
    ground (arith, n, w.valid_key, w.digested, w.replayed, w.found)

pub retry_known :
    (env : Environment) (k : Conditions) (c : Command) (digest : String) (ledger : Ledger)
    (prior : IdempotencyRecord)
    → Knows c digest ledger prior
    → k.cancelled ≡ none
    → same_command prior c digest ≡ true
    → execute env k c ledger ≡ (ledger, ok (existing_receipt prior))
unfolding execute carry_out plan_known
retry_known env k c digest ledger prior w n same =
    rw (plan-Knows env k c digest ledger prior w n, same) refl

-- A plan that appends, seen from the ledger that it leaves.
pub fresh-Knows :
    (env : Environment) (k : Conditions) (c : Command) (ledger : Ledger) (s t : State)
    (e : JournalEntry)
    → (f : IsFresh env k c ledger s e) → is_command_key c.idempotency_key ≡ true
    → replay (ledger ++ numbered_entry ledger e ∷ []) ≡ ok t
    → lookup c.idempotency_key t.idempotency ≡ some (record_of (numbered_entry ledger e))
    → Knows c f.digest
        (ledger ++ numbered_entry ledger e ∷ [])
        (record_of (numbered_entry ledger e))
fresh-Knows env k c ledger s t e f v h l = record {
  state = t;
  replayed = h;
  found = l;
  valid_key = v;
  digested = f.digested;
}

pub fresh-same_command :
    (env : Environment) (k : Conditions) (c : Command) (ledger : Ledger) (s : State)
    (e : JournalEntry) (f : IsFresh env k c ledger s e)
    → same_command (record_of (numbered_entry ledger e)) c f.digest ≡ true
unfolding same_command
fresh-same_command env k c ledger s e f = rw (ap (λ (x : JournalEntry). x.command_type) f.entry) (
    rw (ap (λ (x : JournalEntry). x.input_digest) f.entry)
      (rw (eq_refl c.command_type, eq_refl f.digest) refl))

-- Whatever the plan, the run leaves the ledger alone or appends the planned entry.
pub data Leaves (ledger : Ledger) (p : Fallible Plan) (out : Ledger) : Type 0 where
  alone : out ≡ ledger → Leaves ledger p out
  grown :
      (s : State) (e : JournalEntry)
      → p ≡ ok (Plan.fresh s e)
      → out ≡ ledger ++ numbered_entry ledger e ∷ []
      → Leaves ledger p out

pub carry_out-Leaves :
    (k : Conditions) (ledger : Ledger) (p : Fallible Plan)
    → Leaves ledger p (carry_out k ledger p).0
unfolding carry_out
carry_out-Leaves k ledger (err x) = alone refl
carry_out-Leaves k ledger (ok (Plan.known r)) = alone refl
carry_out-Leaves k ledger (ok (Plan.fresh s e)) = go k.append
  where
    go :
        (a : Option AppendFault)
        → Leaves ledger
            (ok (Plan.fresh s e))
            (carry_out (record k { append = a }) ledger (ok (Plan.fresh s e))).0
    go (some (AppendFault.refused x)) = alone refl
    go (some (AppendFault.unconfirmed x)) = grown s e refl refl
    go none = grown s e refl refl

pub plan-valid_key :
    (env : Environment) (k : Conditions) (c : Command) (ledger : Ledger) (p : Plan)
    → plan env k c ledger ≡ ok p
    → is_command_key c.idempotency_key ≡ true
unfolding plan
plan-valid_key env k c ledger p h = ground arith

-- What a run reports that has grown the ledger: an error, or the receipt of its entry.
pub reported-fresh :
    (k : Conditions) (ledger : Ledger) (s : State) (e : JournalEntry)
    → ((error : Error) × ((carry_out k ledger (ok (Plan.fresh s e))).1 ≡ err error))
      ⊎ ((carry_out k ledger (ok (Plan.fresh s e))).1
          ≡ ok (record {
            sequence = next_sequence (last_sequence ledger);
            resource_id = e.resource_id;
            existing = false;
          }))
unfolding carry_out settle_append
reported-fresh k ledger s e = go k.append
  where
    numbered : JournalEntry
    numbered = record e { sequence = next_sequence (last_sequence ledger) }

    settled :
        ((error : Error) × (settle_append k s numbered ≡ err error))
        ⊎ (settle_append k s numbered
            ≡ ok (record {
              sequence = next_sequence (last_sequence ledger);
              resource_id = e.resource_id;
              existing = false;
            }))
    settled = elim (Fallible-cases (settle_append k s numbered)) [
      | inr failed ↦ inl failed
      | inl (r, h) ↦ inr (ground (arith, h))
    ]

    go :
        (a : Option AppendFault)
        → ((error : Error) × ((carry_out (record k { append = a }) ledger (ok (Plan.fresh s e))).1
              ≡ err error))
          ⊎ ((carry_out (record k { append = a }) ledger (ok (Plan.fresh s e))).1
              ≡ ok (record {
                sequence = next_sequence (last_sequence ledger);
                resource_id = e.resource_id;
                existing = false;
              }))
    go (some (AppendFault.refused x)) = inl (x, refl)
    go (some (AppendFault.unconfirmed x)) = inl (x, refl)
    go none = settled
