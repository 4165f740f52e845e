-- ===== src/Storage/Blobs.antt =====
-- Ledger.ReadBlob and validBlobName of internal/secureledger/ledger.go, with Open's checks.
pub mod Paging
use durable_agent_handoff.Prelude.{
  ℕ, zero, suc, ◌+◌, ◌-◌, String, Bool, true, false, not, ◌&&◌, ◌||◌, [], ◌∷◌, ◌==◌, ltb, leb, eqb,
  if◌then◌else◌, length, invalid, Fallible, ok, ◌>>◌, refuse, ℤ, pos, ltb_ℤ, leb_ℤ, pos_part,
}
use Prim.Native.Char.{code}
use durable_agent_handoff.Storage.Bytes.{Bytes}
use durable_agent_handoff.Storage.Repair.{take, drop}

abbrev is_alphanumeric : ℕ → Bool
is_alphanumeric c = (leb 48 c && leb c 57) || (leb 65 c && leb c 90) || (leb 97 c && leb c 122)

-- [a-zA-Z0-9._-]
abbrev is_blob_char : ℕ → Bool
is_blob_char c = is_alphanumeric c || eqb c 46 || eqb c 95 || eqb c 45

-- At most so many characters of a blob's name
unfoldable pub blob_chars : ℕ → String → Bool
blob_chars limit String.[] = true
blob_chars zero (String.◌∷◌ c s) = false
blob_chars (suc limit) (String.◌∷◌ c s) = is_blob_char (code c) && blob_chars limit s

-- blobNamePattern
unfoldable pub matches_blob_name : String → Bool
unfolding blob_chars
matches_blob_name String.[] = false
matches_blob_name (String.◌∷◌ c s) = is_alphanumeric (code c) && blob_chars 190 s

unfoldable pub valid_blob_name : String → Bool
unfolding matches_blob_name
valid_blob_name name =
    matches_blob_name name
    && not (name == "events.jsonl")
    && not (name == "state.json")
    && not (name == ".write.lock")

pub record BlobChunk : Type 0 where
  pub data_read : Bytes
  pub start : ℕ
  pub stop : ℕ
  pub size : ℕ

-- What a read meets: whether the id and the paths are fine, the size that Stat returns, and what the
-- file holds when it is read, which may be shorter or longer.
pub record Blob : Type 0 where
  pub valid_id : Fallible (Unit {0})
  pub opened : Fallible (Unit {0})
  pub size : ℕ
  pub content : Bytes

abbrev pub default_chunk : ℤ → ℤ
default_chunk max_bytes = if leb_ℤ max_bytes (pos 0) then pos 65536 else max_bytes

abbrev pub smaller : ℕ → ℕ → ℕ
smaller a b = if leb a b then a else b

-- The read itself, from a cursor
unfoldable pub read_chunk : Blob → (after max_bytes : ℕ) → BlobChunk
read_chunk blob after max_bytes =
    let read = take (smaller max_bytes (blob.size - after)) (drop after blob.content) in
    record { data_read = read; start = after; stop = after + length read; size = blob.size }

unfoldable pub read_blob : Blob → String → (after max_bytes : ℤ) → Fallible BlobChunk
read_blob blob name after max_bytes = do
  blob.valid_id
  refuse (not (valid_blob_name name)) (invalid "invalid secure ledger blob name %q")
  refuse (ltb_ℤ after (pos 0)) (invalid "blob cursor cannot be negative")
  refuse (ltb_ℤ (pos 1048576) (default_chunk max_bytes)) (invalid "blob read exceeds 1 MiB")
  blob.opened
  refuse (ltb blob.size (pos_part after)) (invalid "blob cursor %d exceeds size %d")
  ok (read_chunk blob (pos_part after) (pos_part (default_chunk max_bytes)))
