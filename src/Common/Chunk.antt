-- ===== src/Common/Chunk.antt =====
-- sillage-common/src/chunk.rs: chunk metadata and the length-prefixed frames of a payload.
use sillage.Prelude.{
  ℕ, zero, suc, ◌+◌, ◌-◌, ◌%◌, ◌<◌, String, Option, none, some, List, [], ◌∷◌, ◌++◌, ltb,
  if◌then◌else◌, length, take, drop, u32_mod, to_le_bytes, from_le_bytes,
}
pub mod Frames
pub mod Reparse

abbrev pub schema_version : ℕ
schema_version = 1

pub record ChunkMeta : Type 0 where
  pub schema_version : ℕ
  pub stream : String
  pub start_slot : ℕ
  pub end_slot_exclusive : ℕ
  pub first_message_slot : Option ℕ
  pub last_message_slot : Option ℕ
  pub message_count : ℕ
  pub uncompressed_bytes : ℕ
  pub compressed_bytes : ℕ
  pub recv_ns_first : Option ℕ
  pub recv_ns_last : Option ℕ
  pub sealed_reason : String
  pub index_dimensions : List String

pub data ChunkError : Type 0 where
  truncated_length_prefix : ChunkError
  length_past_buffer : (declared remaining : ℕ) → ChunkError

-- What one call of the iterator yields.
pub data FrameResult : Type 0 where
  frame : List ℕ → FrameResult
  bad : ChunkError → FrameResult

-- `payload.len() as u32` keeps the low 32 bits of the length.
unfoldable pub write_len_prefixed : List ℕ → List ℕ → List ℕ
write_len_prefixed buf payload = buf ++ (to_le_bytes (length payload % u32_mod) ++ payload)

-- The frame after a length prefix, and the data left in the iterator.
read_frame : ℕ → List ℕ → FrameResult × List ℕ
read_frame len rest =
    if ltb (length rest) len
    then (bad (length_past_buffer len (length rest)), [])
    else (frame (take len rest), drop len rest)

-- `FrameIter::next`: `none` at the end, else what is yielded and the data left.
unfoldable pub next : List ℕ → Option (FrameResult × List ℕ)
unfolding read_frame
next [] = none
next (a ∷ b ∷ c ∷ d ∷ rest) = some (read_frame (from_le_bytes a b c d) rest)
next _ = some (bad truncated_length_prefix, [])

-- Draining the iterator. A call of `next` takes at least one byte, so as many calls as there are
-- bytes reach the end.
unfoldable pub drain : ℕ → List ℕ → List FrameResult
drain zero buf = []
drain (suc fuel) buf = elim (next buf) [ none ↦ [] | some (r, rest) ↦ r ∷ drain fuel rest ]

unfoldable pub iter_frames : List ℕ → List FrameResult
unfolding drain
iter_frames buf = drain (length buf) buf
