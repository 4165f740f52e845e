-- ===== src/Storage/Repair.antt =====
-- Ledger.repairTail of internal/secureledger/ledger.go: what it does to the file is a value, which is
-- then applied to the file's bytes.
pub mod Tails
use durable_agent_handoff.Prelude.{
  ℕ, zero, suc, ◌+◌, not, ◌&&◌, [], ◌∷◌, ◌++◌, eqb, if◌then◌else◌, is_empty, length, invalid,
  out_of_fuel, Fallible, ok, err, ◌>>=◌,
}
use durable_agent_handoff.Storage.Bytes.{Bytes, newline, trim}
use durable_agent_handoff.Storage.Lines.{Line}
use durable_agent_handoff.Storage.Walk.{Format, parse_sequence, next_of, is_complete, ledger_line}

-- The file is left alone, cut at an offset, or given a newline at an offset.
pub data Mending : Type 0 where
  untouched : Mending
  truncate_at : ℕ → Mending
  newline_at : ℕ → Mending

-- file.Truncate and file.WriteAt, at an offset within the file or at its end
unfoldable pub take : ℕ → Bytes → Bytes
take zero s = []
take (suc n) [] = []
take (suc n) (c ∷ s) = c ∷ take n s

unfoldable pub drop : ℕ → Bytes → Bytes
drop zero s = s
drop (suc n) [] = []
drop (suc n) (c ∷ s) = drop n s

abbrev pub mend : Mending → Bytes → Bytes
mend Mending.untouched file = file
mend (Mending.truncate_at offset) file = take offset file
mend (Mending.newline_at offset) file = take offset file ++ newline ∷ drop (suc offset) file

-- The body of repairTail's loop: what is done with a line, where the loop goes on by `again`.
abbrev pub repair_line :
    Format
    → (ℕ → ℕ → Bytes → Fallible (ℕ × Mending))
    → (sequence good_offset : ℕ) → Line
    → Fallible (ℕ × Mending)
repair_line format again sequence good_offset line =
    let torn = not (is_complete line.text) && line.at_end in
    let goes_on : ℕ → ℕ → Fallible (ℕ × Mending) =
      (λ n good. if line.at_end then ok (n, Mending.untouched) else again n good line.following) in
    if is_empty line.text
    then goes_on sequence good_offset
    else elim (parse_sequence format (trim line.text)) [
      | err e ↦ if torn then ok (sequence, Mending.truncate_at good_offset) else err e
      | ok n ↦
          if not (eqb n (next_of sequence))
          then err (invalid "event sequence %d followed %d")
          else if torn
          then ok (n, Mending.newline_at (good_offset + length line.text))
          else goes_on n (good_offset + length line.text)
    ]

unfoldable pub repair_from :
    Format → (fuel sequence good_offset : ℕ) → Bytes → Fallible (ℕ × Mending)
repair_from format zero sequence good_offset s = err out_of_fuel
repair_from format (suc fuel) sequence good_offset s =
    ledger_line format s >>= repair_line format (repair_from format fuel) sequence good_offset

-- The last sequence of the file, and the file as it is left.
unfoldable pub repair_tail : Format → Bytes → Fallible (ℕ × Bytes)
repair_tail format file =
    repair_from format (suc (length file)) 0 0 file >>= λ r. ok (r.0, mend r.1 file)
