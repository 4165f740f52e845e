-- ===== src/Journal/Idempotence.antt =====
-- A command is carried out once: the retry of one whose entry stands in the ledger changes nothing
-- and returns the receipt of the first run.
use durable_agent_handoff.Prelude.{
  ◌+◌, ◌^◌, ◌<◌, String, ◌≡◌, refl, ap, ◌≢◌, ◌⊎◌, inl, inr, Bool, true, false, Option, none, some,
  [], ◌∷◌, ◌++◌, arith, ◌==◌, eq_iff, lookup, Bool-cases, Error, idempotency_conflict, Fallible, ok,
  err,
}
use durable_agent_handoff.Types.{IdempotencyRecord, State}
use durable_agent_handoff.Environment.{Environment}
use durable_agent_handoff.Events.{JournalEntry}
use durable_agent_handoff.Reducer.{apply_entry, next_sequence, record_of}
use durable_agent_handoff.Journal.{
  Command, Conditions, AppendFault, Ledger, Plan, replay, last_sequence, plan, plan_known,
  same_command, carry_out, settle_append, execute, is_command_key,
}
use durable_agent_handoff.Journal.Planning.{plan-IsFresh}
use durable_agent_handoff.Journal.Durability.{IsReadable, append-IsAppended, numbered_entry}
use durable_agent_handoff.Journal.Known.{
  Knows, plan-Knows, retry_known, fresh-Knows, fresh-same_command, Leaves, carry_out-Leaves,
  plan-valid_key, reported-fresh,
}

differs-same_command :
    (prior : IdempotencyRecord) (c : Command) (digest : String)
    → (prior.command_type ≢ c.command_type) ⊎ (prior.input_digest ≢ digest)
    → same_command prior c digest ≡ false
unfolding same_command
differs-same_command prior c digest other =
    elim (Bool-cases (prior.command_type == c.command_type)) [
      | inr f ↦ ground (arith, f)
      | inl t ↦ elim (Bool-cases (prior.input_digest == digest)) [
        | inr f ↦ ground (arith, f)
        | inl u ↦ elim other [
          | inl d ↦ absurd (d ((eq_iff prior.command_type c.command_type).0 t))
          | inr d ↦ absurd (d ((eq_iff prior.input_digest digest).0 u))
        ]
      ]
    ]

-- A run of a command under a key that the ledger knows of another type of command, or of another
-- input, is a conflict; the ledger stays as it was.
pub execute_conflict :
    (env : Environment) (k : Conditions) (c : Command) (digest : String) (ledger : Ledger)
    (s : State) (prior : IdempotencyRecord)
    → replay ledger ≡ ok s
    → lookup c.idempotency_key s.idempotency ≡ some prior
    → is_command_key c.idempotency_key ≡ true
    → c.digest ≡ ok digest
    → k.cancelled ≡ none
    → (prior.command_type ≢ c.command_type) ⊎ (prior.input_digest ≢ digest)
    → execute env k c ledger ≡ (ledger, err idempotency_conflict)
unfolding execute carry_out plan_known
execute_conflict env k c digest ledger s prior h l v d n other =
    rw (plan-Knows env k c digest ledger prior w n, differs-same_command prior c digest other) refl
  where
    w : Knows c digest ledger prior
    w = record { state = s; replayed = h; found = l; valid_key = v; digested = d }

-- A ledger that a run has grown by the command's entry, whose retry changes nothing.
pub record IsRetried (env : Environment) (k k' : Conditions) (c : Command) (ledger : Ledger)
    : Type 0 where
  pub entry : JournalEntry
  pub grown : (execute env k c ledger).0 ≡ ledger ++ entry ∷ []
  pub keyed : entry.idempotency_key ≡ c.idempotency_key
  pub typed : entry.command_type ≡ c.command_type
  pub reported :
      ((error : Error) × ((execute env k c ledger).1 ≡ err error))
      ⊎ ((execute env k c ledger).1
          ≡ ok (record {
            sequence = entry.sequence;
            resource_id = entry.resource_id;
            existing = false;
          }))
  pub retried : execute env k' c (execute env k c ledger).0 ≡ (
    (execute env k c ledger).0,
    ok (record { sequence = entry.sequence; resource_id = entry.resource_id; existing = true }),
  )

-- Once an entry has reached the ledger, whether or not its run reported success, that entry is the
-- command's, a success was reported with its sequence and its resource, and the command's retry
-- appends nothing and returns the same receipt, marked as existing.
pub retry_after_append :
    (env : Environment) (k k' : Conditions) (c : Command) (ledger : Ledger)
    → IsReadable env ledger
    → last_sequence ledger + 1 < 2 ^ 64
    → (execute env k c ledger).0 ≢ ledger
    → k'.cancelled ≡ none
    → IsRetried env k k' c ledger
retry_after_append env k k' c ledger r b changed n =
    go (unfold execute in carry_out-Leaves k ledger (plan env k c ledger))
  where
    reported_of :
        (s : State) (e : JournalEntry)
        → plan env k c ledger ≡ ok (Plan.fresh s e)
        → ((error : Error) × ((execute env k c ledger).1 ≡ err error))
          ⊎ ((execute env k c ledger).1
              ≡ ok (record {
                sequence = next_sequence (last_sequence ledger);
                resource_id = e.resource_id;
                existing = false;
              }))
    reported_of s e h = unfold execute in rw h (reported-fresh k ledger s e)

    go :
        Leaves ledger (plan env k c ledger) (execute env k c ledger).0 → IsRetried env k k' c ledger
    go (Leaves.alone h) = absurd (changed h)
    go (Leaves.grown s e h out) =
        let f = plan-IsFresh env k c ledger s e h in
        let a = append-IsAppended env k c ledger s e r b f in
        record {
          entry = numbered_entry ledger e;
          grown = out;
          keyed = ap (λ (x : JournalEntry). x.idempotency_key) f.entry;
          typed = ap (λ (x : JournalEntry). x.command_type) f.entry;
          reported = reported_of s e h;
          retried = rw out (
              retry_known env k' c f.digest _ (record_of (numbered_entry ledger e))
                (fresh-Knows env k c ledger s a.state e f (plan-valid_key env k c ledger _ h)
                  a.replayed a.found)
                n (fresh-same_command env k c ledger s e f));
        }

abbrev pub is_unconfirmed : Option AppendFault → Bool
is_unconfirmed (some (AppendFault.unconfirmed x)) = true
is_unconfirmed _ = false

module _ (env : Environment) (k : Conditions) (c : Command) (ledger : Ledger) (x : Error) where
  failed_append :
      (s t : State) (e : JournalEntry)
      → apply_entry s (numbered_entry ledger e) ≡ ok t
      → is_unconfirmed k.append ≡ false
      → k.after_append ≡ none
      → k.snapshot ≡ none
      → k.after_snapshot ≡ none
      → (carry_out k ledger (ok (Plan.fresh s e))).1 ≡ err x
      → (carry_out k ledger (ok (Plan.fresh s e))).0 ≡ ledger
  unfolding carry_out settle_append
  failed_append s t e applied u m p q h = ground arith

  failed_plan :
      (p : Fallible Plan)
      → plan env k c ledger ≡ p
      → IsReadable env ledger
      → last_sequence ledger + 1 < 2 ^ 64
      → is_unconfirmed k.append ≡ false
      → k.after_append ≡ none
      → k.snapshot ≡ none
      → k.after_snapshot ≡ none
      → (carry_out k ledger p).1 ≡ err x
      → (carry_out k ledger p).0 ≡ ledger
  failed_plan (err y) h r b u m v q f = unfold carry_out in refl
  failed_plan (ok (Plan.known y)) h r b u m v q f = unfold carry_out in refl
  failed_plan (ok (Plan.fresh s e)) h r b u m v q f =
      let a = append-IsAppended env k c ledger s e r b (plan-IsFresh env k c ledger s e h) in
      failed_append s a.state e a.applied u m v q f

  -- A run that failed, and met no fault from its append on, left the ledger as it was.
  pub failed_run_appends_nothing :
      IsReadable env ledger
      → last_sequence ledger + 1 < 2 ^ 64
      → is_unconfirmed k.append ≡ false
      → k.after_append ≡ none
      → k.snapshot ≡ none
      → k.after_snapshot ≡ none
      → (execute env k c ledger).1 ≡ err x
      → (execute env k c ledger).0 ≡ ledger
  unfolding execute
  failed_run_appends_nothing = failed_plan (plan env k c ledger) refl
