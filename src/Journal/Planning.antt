-- ===== src/Journal/Planning.antt =====
-- What a planned entry rests on: the state of the ledger, the command's decision and the checks.
use durable_agent_handoff.Prelude.{
  String, ◌≡◌, ◌≢◌, inl, inr, true, false, none, List, arith, ◌==◌, eq_iff, lookup, Bool-cases,
  Option-cases, ok, Fallible-cases,
}
use durable_agent_handoff.Types.{IdempotencyRecord, State}
use durable_agent_handoff.Environment.{Environment}
use durable_agent_handoff.Events.{DomainEvent, JournalEntry}
use durable_agent_handoff.Reducer.{apply_entry}
use durable_agent_handoff.Reducer.Validate.{validate_state}
use durable_agent_handoff.Journal.{
  Command, Conditions, Ledger, Plan, replay, is_command_key, entry_of, plan, plan_fresh, plan_known,
}

pub record IsFresh (env : Environment) (k : Conditions) (c : Command) (ledger : Ledger) (s : State)
    (e : JournalEntry) : Type 0 where
  pub decided : List DomainEvent × String
  pub digest : String
  pub replayed : replay ledger ≡ ok s
  pub digested : c.digest ≡ ok digest
  pub decides : c.decide s k.now ≡ ok decided
  pub unused : lookup c.idempotency_key s.idempotency ≡ none
  pub entry : e ≡ entry_of c digest k.now decided.0 decided.1 0
  pub named : (c.idempotency_key == "") ≡ false
  pub clone : State
  pub applies : apply_entry s e ≡ ok clone
  pub valid : validate_state env clone ≡ ok tt

pub is_command_key-ne-empty : (key : String) → is_command_key key ≡ true → (key == "") ≡ false
unfolding is_command_key
is_command_key-ne-empty String.[] h = cc
is_command_key-ne-empty (String.◌∷◌ c s) h = elim (Bool-cases (String.◌∷◌ c s == "")) [
  | inl e ↦ cc ((eq_iff (String.◌∷◌ c s) "").0 e)
  | inr e ↦ e
]

plan_fresh-IsFresh :
    (env : Environment) (k : Conditions) (c : Command) (ledger : Ledger) (digest : String)
    (r s : State) (e : JournalEntry)
    → replay ledger ≡ ok r
    → c.digest ≡ ok digest
    → lookup c.idempotency_key r.idempotency ≡ none
    → (c.idempotency_key == "") ≡ false
    → plan_fresh env k c digest r ≡ ok (Plan.fresh s e)
    → IsFresh env k c ledger s e
unfolding plan_fresh
plan_fresh-IsFresh env k c ledger digest r s e h d l n p =
    elim (Fallible-cases (c.decide r k.now)) [
      | inr (x, hx) ↦ absurd (ground arith)
      | inl (decided, hd) ↦ go decided hd
    ]
  where
    go :
        (decided : List DomainEvent × String)
        → c.decide r k.now ≡ ok decided
        → IsFresh env k c ledger s e
    go decided hd =
        let entry = entry_of c digest k.now decided.0 decided.1 0 in
        elim (Fallible-cases (apply_entry r entry)) [
          | inr (x, hx) ↦ absurd (ground arith)
          | inl (t, ht) ↦ record {
            decided = decided;
            digest = digest;
            replayed = ground arith;
            digested = d;
            decides = ground arith;
            unused = ground arith;
            entry = ground arith;
            named = n;
            clone = t;
            applies = ground arith;
            valid = ground arith;
          }
        ]

plan_known-ne-fresh :
    (prior : IdempotencyRecord) (c : Command) (digest : String) (s : State) (e : JournalEntry)
    → plan_known prior c digest ≢ ok (Plan.fresh s e)
unfolding plan_known
plan_known-ne-fresh prior c digest s e = ground arith

-- A plan to append rests on the replayed state, a decision and the checks that came after it.
pub plan-IsFresh :
    (env : Environment) (k : Conditions) (c : Command) (ledger : Ledger) (s : State)
    (e : JournalEntry)
    → plan env k c ledger ≡ ok (Plan.fresh s e)
    → IsFresh env k c ledger s e
unfolding plan
plan-IsFresh env k c ledger s e p = elim (Fallible-cases c.digest) [
  | inr (x, hx) ↦ absurd (ground arith)
  | inl (digest, d) ↦ elim (Fallible-cases (replay ledger)) [
    | inr (x, hx) ↦ absurd (ground arith)
    | inl (r, h) ↦ elim (Option-cases (lookup c.idempotency_key r.idempotency)) [
      | inr (prior, l) ↦ absurd (ground (arith, plan_known-ne-fresh prior c digest s e))
      | inl l ↦
          plan_fresh-IsFresh env k c ledger digest r s e h d l
            (is_command_key-ne-empty c.idempotency_key (ground arith)) (ground arith)
    ]
  ]
]
