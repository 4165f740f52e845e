-- ===== src/Journal/Durability.antt =====
-- Every ledger that Execute writes can be read again: whatever the commands, the faults and the
-- crashes, Projection replays and validates it.
use durable_agent_handoff.Prelude.{
  ◌+◌, ◌^◌, ◌≤◌, ◌<◌, ◌≡◌, refl, sym, ap, ◌∙◌, subst, false, Option, none, some, List, [], ◌∷◌,
  ◌++◌, arith, ◌==◌, lookup, length, Fallible, ok, err,
}
use durable_agent_handoff.Types.{State, empty_state}
use durable_agent_handoff.Environment.{Environment}
use durable_agent_handoff.Events.{JournalEntry}
use durable_agent_handoff.Reducer.{apply_entry, next_sequence, record_of}
use durable_agent_handoff.Reducer.Validate.{validate_state, validate_leases}
use durable_agent_handoff.Reducer.Stamp.{stamp, validate_state-stamp}
use durable_agent_handoff.Journal.{
  Command, Conditions, AppendFault, Ledger, Plan, replay, projection, last_sequence, plan,
  carry_out, execute,
}
use durable_agent_handoff.Journal.Replay.{sequence_from-append, replay-append, apply_entry-numbered}
use durable_agent_handoff.Journal.Planning.{IsFresh, plan-IsFresh}

-- The projection succeeds, and its sequence is that of the last record.
pub record IsReadable (env : Environment) (ledger : Ledger) : Type 0 where
  pub state : State
  pub projected : projection env ledger ≡ ok state
  pub numbered : state.sequence ≡ last_sequence ledger

abbrev pub numbered_entry : Ledger → JournalEntry → JournalEntry
numbered_entry ledger e = record e { sequence = next_sequence (last_sequence ledger) }

projection-replay :
    (env : Environment) (ledger : Ledger) (s : State)
    → projection env ledger ≡ ok s
    → replay ledger ≡ ok s
unfolding projection
projection-replay env ledger s h = ground arith

projection-valid :
    (env : Environment) (ledger : Ledger) (s : State)
    → replay ledger ≡ ok s
    → validate_state env s ≡ ok tt
    → projection env ledger ≡ ok s
unfolding projection
projection-valid env ledger s h v = ground arith

-- The replay of a ledger with a planned entry, under its number.
pub record IsAppended (env : Environment) (c : Command) (ledger : Ledger) (s : State)
    (e : JournalEntry) : Type 0 where
  pub state : State
  pub applied : apply_entry s (numbered_entry ledger e) ≡ ok state
  pub replayed : replay (ledger ++ numbered_entry ledger e ∷ []) ≡ ok state
  pub valid : validate_state env state ≡ ok tt
  pub sequence : state.sequence ≡ next_sequence (last_sequence ledger)
  pub found :
      lookup c.idempotency_key state.idempotency ≡ some (record_of (numbered_entry ledger e))

pub append-IsAppended :
    (env : Environment) (k : Conditions) (c : Command) (ledger : Ledger) (s : State)
    (e : JournalEntry)
    → IsReadable env ledger
    → last_sequence ledger + 1 < 2 ^ 64
    → IsFresh env k c ledger s e
    → IsAppended env c ledger s e
append-IsAppended env k c ledger s e r b f =
    let (u, applied, stamped, found) =
      apply_entry-numbered s f.clone e (next_sequence (last_sequence ledger))
        (ap (λ (x : JournalEntry). x.sequence) f.entry)
        (subst (λ key. (key == "") ≡ false) (sym keyed) f.named) (omega arith) follows f.applies in
    record {
      state = u;
      applied = applied;
      replayed = replay-append s u ledger (numbered_entry ledger e) f.replayed refl applied;
      valid = valid_of u stamped;
      sequence = ap (λ (x : State). x.sequence) stamped;
      found =
          subst (λ key. lookup key u.idempotency ≡ some (record_of (numbered_entry ledger e))) keyed
            found;
    }
  where
    keyed : e.idempotency_key ≡ c.idempotency_key
    keyed = ap (λ (x : JournalEntry). x.idempotency_key) f.entry

    same : ok r.state ≡ ok s
    same = sym (projection-replay env ledger r.state r.projected) ∙ f.replayed

    follows : next_sequence (last_sequence ledger) ≡ next_sequence s.sequence
    follows = ap next_sequence (ground (arith, r.numbered, same))

    valid_of :
        (u : State)
        → u ≡ stamp (next_sequence (last_sequence ledger)) u.idempotency f.clone
        → validate_state env u ≡ ok tt
    valid_of u stamped =
        ap (validate_state env) stamped
        ∙ validate_state-stamp env (next_sequence (last_sequence ledger)) u.idempotency f.clone
        ∙ f.valid

IsAppended-IsReadable :
    (env : Environment) (c : Command) (ledger : Ledger) (s : State) (e : JournalEntry)
    → IsAppended env c ledger s e
    → IsReadable env (ledger ++ numbered_entry ledger e ∷ [])
unfolding last_sequence
IsAppended-IsReadable env c ledger s e a = record {
  state = a.state;
  projected = projection-valid env _ a.state a.replayed a.valid;
  numbered = a.sequence ∙ sym (sequence_from-append 0 ledger (numbered_entry ledger e));
}

carry_out-IsReadable :
    (env : Environment) (k : Conditions) (c : Command) (ledger : Ledger) (p : Fallible Plan)
    → plan env k c ledger ≡ p
    → IsReadable env ledger
    → last_sequence ledger + 1 < 2 ^ 64
    → IsReadable env (carry_out k ledger p).0
unfolding carry_out
carry_out-IsReadable env k c ledger (err x) h r b = r
carry_out-IsReadable env k c ledger (ok (Plan.known x)) h r b = r
carry_out-IsReadable env k c ledger (ok (Plan.fresh s e)) h r b = go k.append
  where
    grown : IsReadable env (ledger ++ numbered_entry ledger e ∷ [])
    grown =
        IsAppended-IsReadable env c ledger s e
          (append-IsAppended env k c ledger s e r b (plan-IsFresh env k c ledger s e h))

    go :
        (a : Option AppendFault)
        → IsReadable env (carry_out (record k { append = a }) ledger (ok (Plan.fresh s e))).0
    go (some (AppendFault.refused x)) = r
    go (some (AppendFault.unconfirmed x)) = grown
    go none = grown

-- If Projection reads the ledger then, after any run of Execute, it reads what the run left.
execute-IsReadable :
    (env : Environment) (k : Conditions) (c : Command) (ledger : Ledger)
    → IsReadable env ledger
    → last_sequence ledger + 1 < 2 ^ 64
    → IsReadable env (execute env k c ledger).0
unfolding execute
execute-IsReadable env k c ledger = carry_out-IsReadable env k c ledger _ refl

-- Runs of Execute, one after the other, each under its own conditions.
pub runs : Environment → List (Conditions × Command) → Ledger → Ledger
runs env [] ledger = ledger
runs env ((k, c) ∷ rest) ledger = runs env rest (execute env k c ledger).0

last_sequence-carry_out-le :
    (k : Conditions) (ledger : Ledger) (p : Fallible Plan)
    → last_sequence (carry_out k ledger p).0 ≤ last_sequence ledger + 1
unfolding carry_out
last_sequence-carry_out-le k ledger (err x) = omega arith
last_sequence-carry_out-le k ledger (ok (Plan.known x)) = omega arith
last_sequence-carry_out-le k ledger (ok (Plan.fresh s e)) = go k.append
  where
    grown : last_sequence (ledger ++ numbered_entry ledger e ∷ []) ≤ last_sequence ledger + 1
    grown =
        unfold last_sequence in
        rw (sequence_from-append 0 ledger (numbered_entry ledger e)) (omega arith)

    go :
        (a : Option AppendFault)
        → last_sequence (carry_out (record k { append = a }) ledger (ok (Plan.fresh s e))).0
          ≤ last_sequence ledger + 1
    go (some (AppendFault.refused x)) = omega arith
    go (some (AppendFault.unconfirmed x)) = grown
    go none = grown

runs-IsReadable :
    (env : Environment) (rs : List (Conditions × Command)) (ledger : Ledger)
    → IsReadable env ledger
    → last_sequence ledger + length rs < 2 ^ 64
    → IsReadable env (runs env rs ledger)
unfolding runs
runs-IsReadable env [] ledger r b = r
runs-IsReadable env ((k, c) ∷ rest) ledger r b =
    runs-IsReadable env rest (execute env k c ledger).0
      (execute-IsReadable env k c ledger r (omega arith))
      (unfold execute in omega (arith, last_sequence-carry_out-le k ledger (plan env k c ledger)))

-- From an empty ledger, fewer than 2 ^ 64 runs of Execute, under any clock, with any faults before
-- or after the append, leave a ledger that Projection replays and validates.
pub journal_stays-IsReadable :
    (env : Environment) (rs : List (Conditions × Command))
    → length rs < 2 ^ 64
    → IsReadable env (runs env rs [])
unfolding projection replay validate_state validate_leases last_sequence empty_state
journal_stays-IsReadable env rs b = runs-IsReadable env rs [] empty (omega (arith, b))
  where
    empty : IsReadable env []
    empty = record { state = empty_state; projected = refl; numbered = refl }
