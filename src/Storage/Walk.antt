-- ===== src/Storage/Walk.antt =====
-- Ledger.walk, which View and Replay run, and parseSequence, of internal/secureledger/ledger.go.
pub mod Records
use durable_agent_handoff.Prelude.{
  ℕ, zero, suc, ◌+◌, ◌%◌, ◌^◌, Bool, false, not, ◌&&◌, ◌||◌, [], ◌∷◌, eqb, if◌then◌else◌, is_empty,
  length, invalid, out_of_fuel, Fallible, ok, err, ◌>>=◌,
}
use durable_agent_handoff.Storage.Bytes.{Bytes, newline, trim}
use durable_agent_handoff.Storage.Lines.{Line, read_line}

-- What the ledger asks of encoding/json, the sequence of a record being zero where the text has none,
-- and how long a record may be.
pub record Format : Type 0 where
  pub unmarshal : Bytes → Fallible ℕ
  pub is_json : Bytes → Bool
  pub max_record_bytes : ℕ

-- The ledger's readers have a buffer of 64 << 10 bytes: this one, and one more.
abbrev buffer_size : ℕ
buffer_size = 65535

abbrev pub parse_sequence : Format → Bytes → Fallible ℕ
parse_sequence format raw = format.unmarshal raw >>= λ sequence.
    if eqb sequence 0
    then err (invalid "secure ledger event sequence must be positive")
    else ok sequence

abbrev pub next_of : ℕ → ℕ
next_of sequence = (sequence + 1) % 2 ^ 64

-- line[len(line)-1] == '\n'
unfoldable pub is_complete : Bytes → Bool
is_complete [] = false
is_complete (c ∷ []) = eqb c newline
is_complete (c ∷ d ∷ s) = is_complete (d ∷ s)

unfoldable pub ledger_line : Format → Bytes → Fallible Line
ledger_line format s = read_line format.max_record_bytes buffer_size (suc (length s)) [] s

-- The body of walk's loop: what is done with a line, where the loop goes on by `again`.
abbrev pub walk_line {ℓ} :
    {S : Type ℓ}
    → Format
    → Bool
    → (S → ℕ → Bytes → Fallible S)
    → (ℕ → S → Bytes → Fallible (ℕ × S))
    → ℕ
    → S
    → Line
    → Fallible (ℕ × S)
walk_line {S = S} format tolerate visit again sequence state line =
    let raw = trim line.text in
    let go_on : ℕ → S → Fallible (ℕ × S) =
      (λ n next. if line.at_end then ok (n, next) else again n next line.following) in
    if is_empty line.text || is_empty raw
    then go_on sequence state
    else elim (parse_sequence format raw) [
      | err e ↦
          if not (is_complete line.text) && line.at_end && tolerate
          then ok (sequence, state)
          else err e
      | ok n ↦
          if not (eqb n (next_of sequence))
          then err (invalid "event sequence %d followed %d")
          else visit state n raw >>= go_on n
    ]

unfoldable pub walk_from {ℓ} :
    {S : Type ℓ}
    → Format
    → Bool
    → (S → ℕ → Bytes → Fallible S)
    → (fuel sequence : ℕ) → S
    → Bytes
    → Fallible (ℕ × S)
walk_from format tolerate visit zero sequence state s = err out_of_fuel
walk_from format tolerate visit (suc fuel) sequence state s =
    ledger_line format s
    >>= walk_line format tolerate visit (walk_from format tolerate visit fuel) sequence state

-- The walk of a file from its start. Each turn but the last takes a byte, so that one turn more than
-- there are bytes is enough.
unfoldable pub walk {ℓ} :
    {S : Type ℓ} → Format → Bool → (S → ℕ → Bytes → Fallible S) → S → Bytes → Fallible (ℕ × S)
walk format tolerate visit state s = walk_from format tolerate visit (suc (length s)) 0 state s
