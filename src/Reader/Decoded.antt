-- ===== src/Reader/Decoded.antt =====
-- `DecodedChunk` of sillage-reader/src/storage.rs: a payload with the byte ranges of its frames.
use sillage.Prelude.{
  ℕ, ◌+◌, ◌-◌, ◌*◌, Option, none, some, List, [], ◌∷◌, length, get_elem?, take, drop, Result, ok,
  err, ◌>>=◌, or_fail,
}
use sillage.Common.Chunk.{ChunkError, FrameResult, frame, bad, iter_frames}
use sillage.Common.Update.{SubscribeUpdate}
use sillage.Common.Packages.{Packages}
pub mod Messages

pub record DecodedChunk : Type 0 where
  pub raw : List ℕ
  pub frames : List (ℕ × ℕ)

pub data DecodeError : Type 0 where
  io bad_zstd out_of_range bad_message : DecodeError
  corrupt : (offset : ℕ) → ChunkError → DecodeError

-- The ranges of the frames, from the offset of the first one's length prefix.
unfoldable pub ranges : ℕ → List FrameResult → Result DecodeError (List (ℕ × ℕ))
ranges offset [] = ok []
ranges offset (bad e ∷ fs) = err (corrupt offset e)
ranges offset (frame payload ∷ fs) = do
  let payload_start = offset + 4
  let payload_end = payload_start + length payload
  rest ← ranges payload_end fs
  ok ((payload_start, payload_end) ∷ rest)

-- `decode_chunk`; the argument is what opening the file gives.
unfoldable pub decode_chunk : Packages → Option (List ℕ) → Result DecodeError DecodedChunk
unfolding ranges
decode_chunk P file = do
  compressed ← or_fail file io
  raw ← or_fail (P.decompress compressed) bad_zstd
  frames ← ranges 0 (iter_frames raw)
  ok (record { raw = raw; frames = frames })

unfoldable pub frame_at : DecodedChunk → ℕ → Option (List ℕ)
frame_at c ordinal = elim (get_elem? c.frames ordinal) [
  | none ↦ none
  | some (start, end) ↦ some (take (end - start) (drop start c.raw))
]

unfoldable pub decode_message : Packages → DecodedChunk → ℕ → Result DecodeError SubscribeUpdate
unfolding frame_at
decode_message P c ordinal = do
  bytes ← or_fail (frame_at c ordinal) out_of_range
  or_fail (P.decode bytes) bad_message

-- A range is two words of 8 bytes.
abbrev pub chunk_heap_bytes : DecodedChunk → ℕ
chunk_heap_bytes c = length c.raw + length c.frames * 16
