-- ===== src/Journal/Replay.antt =====
-- Replaying a ledger: one more record is one more applyEntry, and what an entry does to a state.
use durable_agent_handoff.Prelude.{
  ℕ, ◌≡◌, refl, ◌≢◌, inl, inr, false, some, [], ◌∷◌, ◌++◌, arith, ◌==◌, eq_refl, lookup, put,
  lookup-put, eqb, Bool-cases, ok, >>=-eq-ok, Fallible-cases,
}
use durable_agent_handoff.Types.{State}
use durable_agent_handoff.Events.{JournalEntry}
use durable_agent_handoff.Reducer.{apply_entry, apply_events, next_sequence, record_of}
use durable_agent_handoff.Reducer.Stamp.{stamp}
use durable_agent_handoff.Journal.{Ledger, replay, replay_from, sequence_from, last_sequence}

pub sequence_from-append :
    (n : ℕ) (xs : Ledger) (e : JournalEntry) → sequence_from n (xs ++ e ∷ []) ≡ e.sequence
unfolding sequence_from
sequence_from-append n [] e = refl
sequence_from-append n (x ∷ xs) e = sequence_from-append x.sequence xs e

replay_from-append :
    (n : ℕ) (s t u : State) (xs : Ledger) (e : JournalEntry)
    → replay_from n s xs ≡ ok t
    → e.sequence ≡ next_sequence (sequence_from n xs)
    → apply_entry t e ≡ ok u
    → replay_from n s (xs ++ e ∷ []) ≡ ok u
unfolding replay_from sequence_from
replay_from-append n s t u [] e h q r = ground (arith)
replay_from-append n s t u (x ∷ xs) e h q r = elim (Bool-cases (eqb x.sequence (next_sequence n))) [
  | inl y ↦ rw y (
      let (v, hv, hx) =
        >>=-eq-ok (apply_entry s x) (λ v. replay_from x.sequence v xs) (rw y at h) in
      rw hv (replay_from-append x.sequence v t u xs e hx q r))
  | inr z ↦ cc (rw z at h)
]

-- What the ledger holds and one more record that follows it.
pub replay-append :
    (s t : State) (ledger : Ledger) (e : JournalEntry)
    → replay ledger ≡ ok s
    → e.sequence ≡ next_sequence (last_sequence ledger)
    → apply_entry s e ≡ ok t
    → replay (ledger ++ e ∷ []) ≡ ok t
unfolding replay last_sequence
replay-append s t ledger e = replay_from-append 0 _ s t ledger e

-- An entry with no sequence that applies to a state applies under the next sequence too; the
-- results differ in the sequence and the idempotency records, where its key now names it.
pub apply_entry-numbered :
    (s t : State) (e : JournalEntry) (n : ℕ)
    → e.sequence ≡ 0
    → (e.idempotency_key == "") ≡ false
    → n ≢ 0
    → n ≡ next_sequence s.sequence
    → apply_entry s e ≡ ok t
    → (u : State) × (apply_entry s (record e { sequence = n }) ≡ ok u)
      × (u ≡ stamp n u.idempotency t)
      × (lookup e.idempotency_key u.idempotency ≡ some (record_of (record e { sequence = n })))
unfolding apply_entry
apply_entry-numbered s t e n z k nz q h = elim (Fallible-cases (apply_events s e.events)) [
  | inl (t₀, h₀) ↦
      let records = put e.idempotency_key (record_of (record e { sequence = n })) t₀.idempotency in
      (
        stamp n records t₀,
        ground arith,
        ground arith,
        rw (lookup-put e.idempotency_key e.idempotency_key, eq_refl) refl,
      )
  | inr (x, h₀) ↦ ground (arith)
]
