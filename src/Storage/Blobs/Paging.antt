-- ===== src/Storage/Blobs/Paging.antt =====
-- The bounds of a read of a blob, and reading a whole blob by cursors.
use durable_agent_handoff.Prelude.{
  ℕ, zero, suc, ◌+◌, ◌-◌, ◌≤◌, ◌<◌, String, ◌≡◌, refl, ap, ◌∙◌, subst, true, false, not, ◌&&◌, [],
  ◌∷◌, ◌++◌, arith, ltb, length, invalid, ok, >>=-eq-ok, refuse-then, ℤ, pos, negsuc, ltb_ℤ,
  pos_part,
}
use durable_agent_handoff.Storage.Bytes.{Bytes}
use durable_agent_handoff.Storage.Repair.{take, drop}
use durable_agent_handoff.Storage.Blobs.{
  valid_blob_name, BlobChunk, Blob, default_chunk, smaller, read_chunk, read_blob,
}

length-take : (n : ℕ) (s : Bytes) → (length (take n s) ≤ n) × (length (take n s) ≤ length s)
unfolding take
length-take zero s = (omega arith, omega arith)
length-take (suc n) [] = (omega arith, omega arith)
length-take (suc n) (c ∷ s) = let (a, b) = length-take n s in (omega (arith, a), omega (arith, b))

length-drop : (n : ℕ) (s : Bytes) → length (drop n s) ≡ length s - n
unfolding drop
length-drop zero s = omega arith
length-drop (suc n) [] = omega arith
length-drop (suc n) (c ∷ s) = omega (arith, length-drop n s)

take-exact : (n : ℕ) (s : Bytes) → n ≤ length s → length (take n s) ≡ n
unfolding take
take-exact zero s h = refl
take-exact (suc n) [] h = absurd (omega (arith, h))
take-exact (suc n) (c ∷ s) h = omega (arith, take-exact n s (omega (arith, h)))

take-drop : (m : ℕ) (u : Bytes) → u ≡ take m u ++ drop (length (take m u)) u
unfolding take drop
take-drop zero u = refl
take-drop (suc m) [] = refl
take-drop (suc m) (c ∷ u) = ap (λ v. c ∷ v) (take-drop m u)

drop-nothing : (k : ℕ) → drop k [] ≡ []
unfolding drop
drop-nothing zero = refl
drop-nothing (suc k) = refl

drop-drop : (n k : ℕ) (s : Bytes) → drop k (drop n s) ≡ drop (n + k) s
unfolding drop
drop-drop zero k s = let none_dropped : 0 + k ≡ k = omega arith in rw none_dropped refl
drop-drop (suc n) k [] = let one : suc n + k ≡ suc (n + k) = omega arith in rw one (drop-nothing k)
drop-drop (suc n) k (c ∷ s) =
    let one : suc n + k ≡ suc (n + k) = omega arith in rw one (drop-drop n k s)

smaller-positive : (a b : ℕ) → 0 < a → 0 < b → 0 < smaller a b
smaller-positive a b h k = ground (arith, h, k)

not_negative : (z : ℤ) → ltb_ℤ z (pos 0) ≡ false → z ≡ pos (pos_part z)
not_negative (pos n) h = refl
not_negative (negsuc n) h = absurd (ground (arith, h))

not_above : (limit : ℕ) (z : ℤ) → ltb_ℤ (pos limit) z ≡ false → pos_part z ≤ limit
not_above limit (pos n) h = ground (arith, h)
not_above limit (negsuc n) h = omega arith

-- What a chunk is under its bounds.
abbrev pub IsChunk : ℕ → ℕ → Blob → BlobChunk → Type 0
IsChunk after max_bytes blob chunk =
    (chunk.start ≡ after)
    × (chunk.stop ≡ chunk.start + length chunk.data_read)
    × (chunk.stop ≤ blob.size)
    × (length chunk.data_read ≤ max_bytes)
    × (drop chunk.start blob.content ≡ chunk.data_read ++ drop chunk.stop blob.content)
    × (ltb chunk.start chunk.stop ≡ (ltb after blob.size && ltb after (length blob.content)))

length-take-smaller : (n : ℕ) (s : Bytes) → length (take n s) ≡ smaller n (length s)
unfolding take
length-take-smaller zero s = ground arith
length-take-smaller (suc n) [] = ground arith
length-take-smaller (suc n) (c ∷ s) = ground (arith, length-take-smaller n s)

-- A chunk has bytes exactly if there are any after the cursor.
read_chunk-advances :
    (blob : Blob) (after max_bytes : ℕ)
    → 0 < max_bytes
    → ltb after (read_chunk blob after max_bytes).stop
      ≡ (ltb after blob.size && ltb after (length blob.content))
unfolding read_chunk
read_chunk-advances blob after max_bytes some_room =
    let room = smaller max_bytes (blob.size - after) in
    let rest = drop after blob.content in
    rw (length-take-smaller room rest, length-drop after blob.content) (ground (arith, some_room))

default_chunk-positive : (z : ℤ) → 0 < pos_part (default_chunk z)
default_chunk-positive (pos zero) = omega arith
default_chunk-positive (pos (suc n)) = grind arith
default_chunk-positive (negsuc n) = grind arith

read_chunk-IsChunk :
    (blob : Blob) (after max_bytes : ℕ)
    → after ≤ blob.size
    → 0 < max_bytes
    → IsChunk after max_bytes blob (read_chunk blob after max_bytes)
unfolding read_chunk
read_chunk-IsChunk blob after max_bytes inside some_room = (
  refl,
  refl,
  omega (arith, (length-take room rest).0, least.1, inside),
  omega (arith, (length-take room rest).0, least.0),
  take-drop room rest
      ∙ ap (λ t. take room rest ++ t) (drop-drop after (length (take room rest)) blob.content),
  read_chunk-advances blob after max_bytes some_room,
)
  where
    rest : Bytes
    rest = drop after blob.content

    room : ℕ
    room = smaller max_bytes (blob.size - after)

    least : (room ≤ max_bytes) × (room ≤ blob.size - after)
    least = (ground arith, ground arith)

-- ReadBlob returns a chunk only for a valid name, a cursor that is not negative and at most a mebibyte,
-- a limit of zero or less standing for 64 KiB. The chunk starts at the cursor, ends where its bytes end,
-- within the size that Stat returned, and has at most so many bytes as were asked for. Its bytes are
-- those of the file from its start to its end, and there are any exactly if the cursor stands before the
-- size and before the end of what the file holds.
pub read_blob-IsChunk :
    (blob : Blob) (name : String) (after max_bytes : ℤ) (chunk : BlobChunk)
    → read_blob blob name after max_bytes ≡ ok chunk
    → (valid_blob_name name ≡ true)
      × (after ≡ pos (pos_part after))
      × (pos_part (default_chunk max_bytes) ≤ 1048576)
      × IsChunk (pos_part after) (pos_part (default_chunk max_bytes)) blob chunk
unfolding read_blob
read_blob-IsChunk blob name after max_bytes chunk returned =
    let (_, _, r₀) = >>=-eq-ok blob.valid_id _ returned in
    let (named, r₁) =
      refuse-then (not (valid_blob_name name)) (invalid "invalid secure ledger blob name %q") _
        r₀ in
    let (signed, r₂) =
      refuse-then (ltb_ℤ after (pos 0)) (invalid "blob cursor cannot be negative") _ r₁ in
    let (limited, r₃) =
      refuse-then (ltb_ℤ (pos 1048576) (default_chunk max_bytes))
        (invalid "blob read exceeds 1 MiB") _ r₂ in
    let (_, _, r₄) = >>=-eq-ok blob.opened _ r₃ in
    let (inside, r₅) =
      refuse-then (ltb blob.size (pos_part after)) (invalid "blob cursor %d exceeds size %d") _
        r₄ in
    let within : pos_part after ≤ blob.size = ground (arith, inside) in
    let same : read_chunk blob (pos_part after) (pos_part (default_chunk max_bytes)) ≡ chunk = cc in
    (
      ground (arith, named),
      not_negative after signed,
      not_above 1048576 (default_chunk max_bytes) limited,
      subst (IsChunk (pos_part after) (pos_part (default_chunk max_bytes)) blob) same (
          read_chunk-IsChunk blob (pos_part after) (pos_part (default_chunk max_bytes)) within
            (default_chunk-positive max_bytes)),
    )
