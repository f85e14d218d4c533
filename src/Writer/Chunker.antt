-- ===== src/Writer/Chunker.antt =====
-- sillage-writer/src/chunker.rs: messages are batched into chunks of consecutive slots, and a chunk
-- is sealed into its three files.
use sillage.Prelude.{
  ℕ, zero, suc, ◌+◌, ◌-◌, ◌*◌, ◌/◌, ◌%◌, min, max, String, Option, none, some, Bool, true, false,
  not, ◌||◌, List, [], ◌∷◌, map, ltb, leb, eqb, ◌==◌, nat_eq, nat_ord, if◌then◌else◌, length,
  filterb, Result, ok, err, or_fail, lookup, contains_key, remove, insert_sorted, add64, mul64,
  u32_mod,
}
use sillage.Common.Stream.{Stream, as_str}
use sillage.Common.Chunk.{ChunkMeta, schema_version, write_len_prefixed}
use sillage.Common.Update.{SubscribeUpdate}
use sillage.Common.Roaring.{Roaring}
use sillage.Common.Packages.{Packages}
use sillage.Common.Disk.{
  FilePath, Ext, zst, idx, meta_json, Disk, IoError, M, ◌>>=◌, ◌>>◌, pure, throw, lift, expect,
  and_then, attempt, create, write_bytes, sync, rename, is_file, path_eq,
}
use sillage.Writer.Index.{
  IndexBuilder, SerializeError, for_stream, observe, dimension_names, serialize_index,
}
pub mod Sidecar
pub mod Seal
pub mod Keeps
pub mod Calls
pub mod Sealing
pub mod Sealed

-- `seal_lookahead_chunks`, and the idle threshold in nanoseconds.
abbrev pub seal_lookahead_chunks : ℕ
seal_lookahead_chunks = 2

abbrev pub idle_seal_threshold : ℕ
idle_seal_threshold = 300_000_000_000

pub record WriterConfig : Type 0 where
  pub slots_per_chunk : ℕ
  pub out_of_order_tolerance_slots : ℕ
  pub max_open_chunks : ℕ

-- A message with its receipt times: monotonic and wall clock.
pub record Stamped : Type 0 where
  pub mono : ℕ
  pub wall_ns : ℕ
  pub inner : SubscribeUpdate

-- `panicked` stands for the panics: a missing encoder, a division by zero, an empty map.
pub data ChunkerError : Type 0 where
  io : IoError → ChunkerError
  indexing : SerializeError → ChunkerError
  missing_chunk encoder_gone meta_encoding panicked out_of_fuel : ChunkerError

pub data SealedReason : Type 0 where
  cap_reached watermark shutdown : SealedReason

abbrev pub reason_str : SealedReason → String
reason_str cap_reached = "cap-reached"
reason_str watermark = "watermark"
reason_str shutdown = "shutdown"

-- `Some(o.map_or(x, |y| f(y, x)))`.
abbrev pub fold_opt : (ℕ → ℕ → ℕ) → Option ℕ → ℕ → Option ℕ
fold_opt f none x = some x
fold_opt f (some y) x = some (f y x)

module _ (R : Roaring) where
  pub record OpenChunk : Type 0 where
    pub start_slot : ℕ
    pub end_slot_exclusive : ℕ
    pub partial_zst : FilePath
    pub partial_meta : FilePath
    pub final_zst : FilePath
    pub final_meta : FilePath
    pub partial_idx : FilePath
    pub final_idx : FilePath
    -- The bytes that the encoder was given.
    pub encoder : Option (List ℕ)
    pub message_count : ℕ
    pub uncompressed_bytes : ℕ
    pub first_message_slot : Option ℕ
    pub last_message_slot : Option ℕ
    pub recv_ns_first : Option ℕ
    pub recv_ns_last : Option ℕ
    pub last_activity : ℕ
    pub index : IndexBuilder R

  pub record Chunker : Type 0 where
    pub stream : Stream
    pub cfg : WriterConfig
    pub open_chunks : List (ℕ × OpenChunk)
    pub watermark_slot : Option ℕ

  -- The chunker beside the disk that it writes.
  pub record World : Type 0 where
    pub chunker : Chunker
    pub disk : Disk

  abbrev pub on_disk : {A : Type 0} → M Disk ChunkerError A → M World ChunkerError A
  on_disk m w = let (r, d) = m w.disk in (r, record w { disk = d })

  unfoldable pub new_chunker : Stream → WriterConfig → Chunker
  new_chunker s cfg = record { stream = s; cfg = cfg; open_chunks = []; watermark_slot = none }

  module _ (P : Packages) where
    -- The fields after a message was written to the encoder.
    unfoldable pub appended : ℕ → Stamped → ℕ → List ℕ → OpenChunk → OpenChunk
    appended now msg slot written c =
        let framed = write_len_prefixed [] (P.encode msg.inner) in
        record c {
          encoder = some (write_len_prefixed written (P.encode msg.inner));
          index = observe R (c.message_count % u32_mod) msg.inner c.index;
          message_count = add64 c.message_count 1;
          uncompressed_bytes = add64 c.uncompressed_bytes (length framed);
          first_message_slot = fold_opt min c.first_message_slot slot;
          last_message_slot = fold_opt max c.last_message_slot slot;
          recv_ns_first = fold_opt min c.recv_ns_first msg.wall_ns;
          recv_ns_last = fold_opt max c.recv_ns_last msg.wall_ns;
          last_activity = now;
        }

    -- `OpenChunk::append`. The encoder writes through a buffer to the partial file, so its
    -- `write_all` may fail. What of the payload has reached the file before the seal is not told.
    unfoldable pub append : ℕ → Stamped → ℕ → OpenChunk → M Disk ChunkerError OpenChunk
    unfolding appended
    append now msg slot c = do
      written ← expect c.encoder encoder_gone
      attempt io (λ m. m)
      pure (appended now msg slot written c)

    -- The sidecar of a chunk, with the size that the file system reports for its payload.
    meta_of : Stream → OpenChunk → SealedReason → ℕ → ChunkMeta
    meta_of s c reason compressed_bytes = record {
      schema_version = schema_version;
      stream = as_str s;
      start_slot = c.start_slot;
      end_slot_exclusive = c.end_slot_exclusive;
      first_message_slot = c.first_message_slot;
      last_message_slot = c.last_message_slot;
      message_count = c.message_count;
      uncompressed_bytes = c.uncompressed_bytes;
      compressed_bytes = compressed_bytes;
      recv_ns_first = c.recv_ns_first;
      recv_ns_last = c.recv_ns_last;
      sealed_reason = reason_str reason;
      index_dimensions = dimension_names R c.index;
    }

    -- `file.metadata().map(|m| m.len()).unwrap_or(0)`: a failure is the size 0.
    size_or_zero : FilePath → Result ChunkerError (Unit {0}) × Disk → Result ChunkerError ℕ × Disk
    size_or_zero p (err e, d) = (ok 0, d)
    size_or_zero p (ok u, d) = (ok (elim (lookup p d.files) [ none ↦ 0 | some bs ↦ length bs ]), d)

    file_size : FilePath → M Disk ChunkerError ℕ
    unfolding size_or_zero
    file_size p d = size_or_zero p (attempt io (λ m. m) d)

    -- The payload: the encoder is finished and its file flushed.
    write_payload : OpenChunk → M Disk ChunkerError ℕ
    write_payload c = do
      written ← expect c.encoder panicked
      write_bytes io c.partial_zst (P.compress written)
      sync io
      compressed_bytes ← file_size c.partial_zst
      sync io
      pure compressed_bytes

    write_partial : FilePath → List ℕ → M Disk ChunkerError (Unit {0})
    write_partial p bs = do create io p; write_bytes io p bs; sync io

    -- The body of `seal_chunk` once the chunk is taken out of the map.
    unfoldable pub seal_files : Stream → OpenChunk → SealedReason → M Disk ChunkerError (Unit {0})
    unfolding write_payload write_partial file_size meta_of
    seal_files s c reason = do
      compressed_bytes ← write_payload c
      meta_bytes ← expect (P.to_json (meta_of s c reason compressed_bytes)) meta_encoding
      write_partial c.partial_meta meta_bytes
      rename io c.partial_zst c.final_zst
      idx_bytes ←
          lift indexing
            (serialize_index R P.header c.index c.start_slot c.end_slot_exclusive c.message_count)
      write_partial c.partial_idx idx_bytes
      rename io c.partial_idx c.final_idx
      rename io c.partial_meta c.final_meta

    -- The chunk leaves the map before the first operation on the disk.
    unfoldable pub seal_chunk : ℕ → SealedReason → M World ChunkerError (Unit {0})
    unfolding seal_files
    seal_chunk chunk_idx reason w = elim (lookup chunk_idx w.chunker.open_chunks) [
      | none ↦ (err missing_chunk, w)
      | some c ↦ on_disk (seal_files w.chunker.stream c reason) (record w {
        chunker = record (w.chunker) { open_chunks = remove chunk_idx w.chunker.open_chunks };
      })
    ]

    unfoldable pub chunk_path : Stream → ℕ → ℕ → Ext → Bool → FilePath
    chunk_path s start end e partial = record {
      stream = s;
      start_slot = start;
      end_slot = end;
      ext = e;
      partial = partial;
    }

    -- A new chunk, whose start is the first slot of its range.
    unfoldable pub fresh_chunk : Stream → ℕ → ℕ → ℕ → OpenChunk
    unfolding chunk_path
    fresh_chunk s start end now = record {
      start_slot = start;
      end_slot_exclusive = end;
      partial_zst = chunk_path s start end zst true;
      partial_meta = chunk_path s start end meta_json true;
      final_zst = chunk_path s start end zst false;
      final_meta = chunk_path s start end meta_json false;
      partial_idx = chunk_path s start end idx true;
      final_idx = chunk_path s start end idx false;
      encoder = some [];
      message_count = 0;
      uncompressed_bytes = 0;
      first_message_slot = none;
      last_message_slot = none;
      recv_ns_first = none;
      recv_ns_last = none;
      last_activity = now;
      index = for_stream R s;
    }

    unfoldable pub insert_open : ℕ → OpenChunk → World → World
    insert_open chunk_idx c w = record w {
      chunker = record (w.chunker) {
        open_chunks = insert_sorted chunk_idx c w.chunker.open_chunks;
      };
    }

    -- `File::create`, `Encoder::new`, and the entry in the map.
    start_chunk : ℕ → OpenChunk → M World ChunkerError (Unit {0})
    unfolding insert_open
    start_chunk chunk_idx c = do
      on_disk (create io c.partial_zst)
      on_disk (attempt io (λ m. m))
      λ w. (ok tt, insert_open chunk_idx c w)

    -- `open_chunk`: a range that is already sealed on the disk is not opened again, and its
    -- messages are dropped.
    unfoldable pub open_chunk : ℕ → ℕ → M World ChunkerError (Unit {0})
    unfolding start_chunk fresh_chunk
    open_chunk chunk_idx now w =
        let spc = w.chunker.cfg.slots_per_chunk in
        let start = mul64 chunk_idx spc in
        let c = fresh_chunk w.chunker.stream start (add64 start spc) now in
        if contains_key chunk_idx w.chunker.open_chunks
        then (ok tt, w)
        else if is_file c.final_zst w.disk.files || is_file c.final_meta w.disk.files
        then (ok tt, w)
        else start_chunk chunk_idx c w

    -- The loop that seals the oldest chunks while the cap is reached. Each round takes one chunk
    -- out of the map, so as many rounds as there are chunks, and one, are enough.
    unfoldable pub make_room : ℕ → ℕ → M World ChunkerError (Unit {0})
    make_room zero chunk_idx w = (err out_of_fuel, w)
    make_room (suc fuel) chunk_idx w =
        if ltb (length w.chunker.open_chunks) w.chunker.cfg.max_open_chunks
        then (ok tt, w)
        else elim w.chunker.open_chunks [
          | [] ↦ (err panicked, w)
          | (oldest, c) ∷ rest ↦
              if oldest == chunk_idx
              then (ok tt, w)
              else (seal_chunk oldest cap_reached >>= λ _. make_room fuel chunk_idx) w
        ]

    -- A chunk for the message's slot, if there is none yet.
    ensure_open : ℕ → ℕ → M World ChunkerError (Unit {0})
    ensure_open chunk_idx now w =
        if contains_key chunk_idx w.chunker.open_chunks
        then (ok tt, w)
        else (do make_room (suc (length w.chunker.open_chunks)) chunk_idx; open_chunk chunk_idx now)
            w

    -- `if let Some(chunk) = self.open.get_mut(..)`: nothing where the chunk was not opened.
    append_open : ℕ → Stamped → ℕ → ℕ → M World ChunkerError (Unit {0})
    unfolding insert_open
    append_open now msg slot chunk_idx w = elim (lookup chunk_idx w.chunker.open_chunks) [
      | none ↦ (ok tt, w)
      | some c ↦
          (on_disk (append now msg slot c) >>= λ c' w'. (ok tt, insert_open chunk_idx c' w')) w
    ]

    -- `for idx in to_seal { self.seal_chunk(idx, reason)?; }`.
    unfoldable pub seal_all : SealedReason → List ℕ → M World ChunkerError (Unit {0})
    seal_all reason [] = pure tt
    seal_all reason (i ∷ is) = seal_chunk i reason >>= λ _. seal_all reason is

    abbrev pub keys : List (ℕ × OpenChunk) → List ℕ
    keys m = map (λ (p : ℕ × OpenChunk). p.0) m

    -- The chunks that the watermark has left two or more ranges behind.
    seal_passed : ℕ → M World ChunkerError (Unit {0})
    seal_passed watermark_chunk w =
        seal_all watermark
          (filterb (λ i. leb (add64 i seal_lookahead_chunks) watermark_chunk)
            (keys w.chunker.open_chunks))
          w

    -- `ingest` after the watermark has moved to `mark`.
    ingest_at : ℕ → Stamped → ℕ → ℕ → M World ChunkerError (Unit {0})
    unfolding ensure_open append_open seal_passed
    ingest_at now msg slot mark w =
        let spc = w.chunker.cfg.slots_per_chunk in
        if eqb spc 0
        then (err panicked, w)
        else if ltb (add64 slot w.chunker.cfg.out_of_order_tolerance_slots) mark
        then (ok tt, w)
        else (do
          ensure_open (slot / spc) now
          append_open now msg slot (slot / spc)
          seal_passed (mark / spc))
            w

    unfoldable pub raise_watermark : Option ℕ → ℕ → ℕ
    raise_watermark none slot = slot
    raise_watermark (some w) slot = max w slot

    -- `Chunker::ingest`, with what the monotonic clock shows during the call.
    unfoldable pub ingest : ℕ → Stamped → ℕ → M World ChunkerError (Unit {0})
    unfolding ingest_at raise_watermark
    ingest now msg slot w =
        let mark = raise_watermark w.chunker.watermark_slot slot in
        ingest_at now msg slot mark
          (record w { chunker = record (w.chunker) { watermark_slot = some mark } })

    -- The chunks without a message for longer than the threshold. The source seals them with the
    -- reason "shutdown".
    unfoldable pub tick : ℕ → M World ChunkerError (Unit {0})
    tick now w =
        seal_all shutdown
          (keys (
            filterb (λ (p : ℕ × OpenChunk). ltb idle_seal_threshold (now - p.1.last_activity))
              w.chunker.open_chunks))
          w

    unfoldable pub shut_down : M World ChunkerError (Unit {0})
    shut_down w = seal_all shutdown (keys w.chunker.open_chunks) w
