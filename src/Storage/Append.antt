-- ===== src/Storage/Append.antt =====
-- Txn.Append of internal/secureledger/ledger.go: repair, the checks of the encoded record, and the
-- write. What the file system answers is an argument; it may stop a write at any byte.
pub mod Cuts
pub mod Atomic
pub mod RoundTrip
use durable_agent_handoff.Prelude.{
  ℕ, ◌+◌, not, ◌||◌, Option, none, some, [], ◌∷◌, ◌++◌, ltb, eqb, is_empty, length, Error, invalid,
  Fallible, ok, err, ◌>>=◌, ◌>>◌, refuse,
}
use durable_agent_handoff.Storage.Bytes.{Bytes, newline, trim}
use durable_agent_handoff.Storage.Walk.{Format, parse_sequence, next_of}
use durable_agent_handoff.Storage.Repair.{take, repair_tail}

pub data Write : Type 0 where
  finished : Write
  stopped : ℕ → Error → Write

-- The answers of tx.validate at each boundary, of openRegular, of file.Write, file.Sync and file.Close,
-- and of validatePinnedRegular before and after the write.
pub record Answers : Type 0 where
  pub valid_at_open : Fallible (Unit {0})
  pub opened : Fallible (Unit {0})
  pub valid_at_repair : Fallible (Unit {0})
  pub valid_at_append : Fallible (Unit {0})
  pub pinned_before : Fallible (Unit {0})
  pub write : Write
  pub synced : Fallible (Unit {0})
  pub pinned_after : Fallible (Unit {0})
  pub closed : Fallible (Unit {0})

-- The record to be written after a sequence.
unfoldable pub encoded_record : Format → (ℕ → Fallible Bytes) → ℕ → Fallible (ℕ × Bytes)
encoded_record format encode sequence = do
  let next = next_of sequence
  encoded ← encode next
  let raw = trim encoded
  refuse (is_empty raw || not (format.is_json raw))
      (invalid "secure ledger event is not valid JSON")
  parsed ← parse_sequence format raw
  refuse (not (eqb parsed next))
      (invalid "encoded event sequence %d does not match allocated sequence %d")
  refuse (ltb format.max_record_bytes (length raw + 1))
      (invalid "secure ledger event exceeds %d bytes")
  ok (next, raw)

-- The file after the write, and the error of what follows it.
abbrev pub written : Answers → Bytes → ℕ × Bytes → Bytes × Fallible ℕ
written answers file (next, raw) = elim answers.write [
  | Write.finished ↦ (
    file ++ (raw ++ newline ∷ []),
    answers.synced >> answers.pinned_after >> answers.closed >> ok next,
  )
  | Write.stopped k e ↦ (file ++ take k (raw ++ newline ∷ []), err e)
]

abbrev pub finish : Answers → Bytes → Fallible (ℕ × Bytes) → Bytes × Fallible ℕ
finish answers repaired (err e) = (repaired, err e)
finish answers repaired (ok next) = written answers repaired next

abbrev pub after_repair :
    Answers → Format → (ℕ → Fallible Bytes) → Bytes → Fallible (ℕ × Bytes) → Bytes × Fallible ℕ
after_repair answers format encode file (err e) = (file, err e)
after_repair answers format encode file (ok (sequence, repaired)) = finish answers repaired (
    encoded_record format encode sequence >>= λ next.
    answers.valid_at_append >> answers.pinned_before >> ok next)

-- The file as it is left, and what is returned.
unfoldable pub append_record :
    Answers → Format → Option (ℕ → Fallible Bytes) → Bytes → Bytes × Fallible ℕ
append_record answers format none file = (file, err (invalid "secure ledger encoder is required"))
append_record answers format (some encode) file =
    after_repair answers format encode file (
      answers.valid_at_open >> answers.opened >> answers.valid_at_repair >> repair_tail format file)
