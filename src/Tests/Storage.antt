-- ===== src/Tests/Storage.antt =====
-- The event file, the blobs and the lock of the secure ledger at concrete inputs.
use durable_agent_handoff.Prelude.{
  ℕ, zero, suc, ◌≤◌, ◌≡◌, refl, inl, inr, Bool, true, false, ◌&&◌, some, List, [], ◌∷◌, ◌++◌, arith,
  leb, eqb, if◌then◌else◌, invalid, environment, Fallible, ok, err, ◌>>=◌, pos, pos_part,
}
use durable_agent_handoff.Storage.Bytes.{
  Bytes, trim, trim_back, drop_space, front_width, back_width,
}
use durable_agent_handoff.Storage.Lines.{line_of, limited, read_line, read_slice, read_line-eq}
use durable_agent_handoff.Storage.Walk.{Format, walk, walk_from, ledger_line, is_complete}
use durable_agent_handoff.Storage.Walk.Records.{
  IsRecord, IsTorn, IsLog, render, visit_records, walk-log,
}
use durable_agent_handoff.Storage.Repair.{take, drop, repair_tail}
use durable_agent_handoff.Storage.Repair.Tails.{repair_tail-whole}
use durable_agent_handoff.Storage.Append.{Write, Answers, append_record}
use durable_agent_handoff.Storage.Append.Cuts.{IsUncuttable}
use durable_agent_handoff.Storage.Append.Atomic.{IsAtomic, append-IsAtomic}
use durable_agent_handoff.Storage.Append.RoundTrip.{untroubled, append-walk}
use durable_agent_handoff.Storage.Locking.{Lock, LockAnswers, acquire, update}
use durable_agent_handoff.Storage.Locking.Waiting.{
  IsAcquired, acquire-IsAcquired, IsUpdated, update-IsUpdated,
}
use durable_agent_handoff.Storage.Blobs.{
  Blob, BlobChunk, valid_blob_name, matches_blob_name, blob_chars, default_chunk, read_chunk,
  read_blob,
}
use durable_agent_handoff.Storage.Blobs.Paging.{IsChunk, read_blob-IsChunk}

-- A text is a number between braces.
abbrev decode : Bytes → Fallible ℕ
decode (a ∷ n ∷ b ∷ []) =
    if eqb a 123 && eqb b 125 then ok n else err (invalid "unexpected end of JSON input")
decode _ = err (invalid "unexpected end of JSON input")

abbrev is_decoded : Fallible ℕ → Bool
is_decoded (ok n) = true
is_decoded (err e) = false

abbrev braces : Format
braces = record { unmarshal = decode; is_json = λ s. is_decoded (decode s); max_record_bytes = 16 }

abbrev record_of : ℕ → Bytes
record_of n = 123 ∷ n ∷ 125 ∷ []

abbrev stored : List Bytes
stored = record_of 1 ∷ []

-- The encoder puts white space in front.
abbrev encode : ℕ → Fallible Bytes
encode n = ok (32 ∷ record_of n)

abbrev torn : Bytes
torn = 123 ∷ 2 ∷ []

first-IsRecord : IsRecord braces 1 (record_of 1)
unfolding trim trim_back drop_space front_width back_width
first-IsRecord = ((refl, (refl, (refl, tt))), omega arith, refl, omega arith, refl)

stored-IsLog : IsLog braces 0 stored
stored-IsLog = (first-IsRecord, tt)

torn-IsTorn : IsTorn braces torn
unfolding trim trim_back drop_space front_width back_width
torn-IsTorn = ((refl, (refl, tt)), omega arith, inr (invalid "unexpected end of JSON input", refl))

second-IsRecord : IsRecord braces 2 (trim (32 ∷ record_of 2))
unfolding trim trim_back drop_space front_width back_width
second-IsRecord = ((refl, (refl, (refl, tt))), omega arith, refl, omega arith, refl)

second-IsUncuttable : IsUncuttable braces (trim (32 ∷ record_of 2))
unfolding trim trim_back drop_space front_width back_width take
second-IsUncuttable zero h = inl refl
second-IsUncuttable (suc zero) h = inr (invalid "unexpected end of JSON input", refl)
second-IsUncuttable (suc (suc zero)) h = inr (invalid "unexpected end of JSON input", refl)
second-IsUncuttable (suc (suc (suc k))) h = absurd (omega (arith, h))

abbrev stopping : Answers
stopping = record untroubled { write = Write.stopped 2 (environment "no space left on device") }

append-IsAtomic_example :
    IsAtomic braces stored
      (trim (32 ∷ record_of 2))
      (append_record stopping braces (some encode) (render stored ++ torn))
append-IsAtomic_example =
    append-IsAtomic stopping braces encode stored torn (32 ∷ record_of 2) stored-IsLog torn-IsTorn
      refl second-IsRecord second-IsUncuttable

-- Collects what is visited.
abbrev collect : List (ℕ × Bytes) → ℕ → Bytes → Fallible (List (ℕ × Bytes))
collect seen n raw = ok (seen ++ (n, raw) ∷ [])

append-walk_example :
    let file = render stored ++ torn in
    let (after, result) = append_record untroubled braces (some encode) file in
    (result ≡ ok 2)
    × (walk braces true collect [] after ≡ (
        walk braces true collect [] file >>= λ (m, next).
        collect next (suc m) (trim (32 ∷ record_of 2)) >>= λ last. ok (suc m, last)))
unfolding trim
append-walk_example =
    append-walk collect [] braces encode stored torn (32 ∷ record_of 2) stored-IsLog torn-IsTorn
      refl second-IsRecord second-IsUncuttable refl

walk-log_example :
    walk braces true collect [] (render stored ++ torn) ≡ visit_records collect 0 [] stored
walk-log_example = walk-log collect braces [] stored torn stored-IsLog torn-IsTorn

walk_test : walk braces true collect [] (render stored ++ torn) ≡ ok (1, (1, record_of 1) ∷ [])
unfolding trim trim_back drop_space front_width back_width walk walk_from ledger_line read_line
    read_slice is_complete render
walk_test = refl

-- The repair of a whole record that lacks its newline
repair_tail-whole_example :
    repair_tail braces (render stored ++ trim (32 ∷ record_of 2))
    ≡ ok (2, render (stored ++ trim (32 ∷ record_of 2) ∷ []))
repair_tail-whole_example =
    repair_tail-whole braces stored (trim (32 ∷ record_of 2)) stored-IsLog second-IsRecord

read_line-eq_example :
    read_line 16 1 6 [] (123 ∷ 1 ∷ 125 ∷ 10 ∷ 123 ∷ [])
    ≡ limited 16 (line_of [] (123 ∷ 1 ∷ 125 ∷ 10 ∷ 123 ∷ []))
read_line-eq_example = read_line-eq 16 1 6 [] (123 ∷ 1 ∷ 125 ∷ 10 ∷ 123 ∷ []) (omega arith)

-- The lock is free at the third attempt.
abbrev busy_twice : Lock
busy_twice = record {
  try = λ attempt. ok (leb 2 attempt);
  lag = λ attempt. 1;
  oversleep = λ attempt. 2;
}

abbrev lock_answers : LockAnswers
lock_answers = record {
  root = ok tt;
  file = ok tt;
  lock = busy_twice;
  valid_at_acquire = ok tt;
  owner_written = ok tt;
  valid_at_release = ok tt;
}

acquire-IsAcquired_example : IsAcquired lock_answers (acquire lock_answers 5)
acquire-IsAcquired_example = acquire-IsAcquired lock_answers 5

update-IsUpdated_example :
    IsUpdated lock_answers
      (some (λ held n. (suc n, ok tt)))
      3
      (update lock_answers (ok tt) (some (λ held n. (suc n, ok tt))) 5 3)
update-IsUpdated_example =
    update-IsUpdated lock_answers (ok tt) (some (λ held n. (suc n, ok tt))) 5 3

abbrev blob : Blob
blob = record { valid_id = ok tt; opened = ok tt; size = 3; content = 7 ∷ 8 ∷ 9 ∷ [] }

abbrev chunk : BlobChunk
chunk = record { data_read = 8 ∷ []; start = 1; stop = 2; size = 3 }

read_blob-IsChunk_example :
    (valid_blob_name "stdout.log" ≡ true)
    × (pos 1 ≡ pos (pos_part (pos 1)))
    × (pos_part (default_chunk (pos 1)) ≤ 1048576)
    × IsChunk (pos_part (pos 1)) (pos_part (default_chunk (pos 1))) blob chunk
unfolding read_blob read_chunk valid_blob_name matches_blob_name blob_chars take drop
read_blob-IsChunk_example = read_blob-IsChunk blob "stdout.log" (pos 1) (pos 1) chunk refl
