-- ===== src/Tests/Chunker.antt =====
-- A writer that takes two transactions and shuts down: its files, and its runs with a failing disk.
use sillage.Prelude.{
  All, ℕ, ◌≡◌, refl, none, some, Bool, true, false, List, [], ◌∷◌, lookup, contains_key, remove,
  insert, insert_sorted, ltb, leb, eqb, add64, ok, nat_eq, ◌/◌,
}
use sillage.Common.Chunk.{write_len_prefixed}
use sillage.Common.Stream.{tx}
use sillage.Common.Update.{SubscribeUpdate}
use sillage.Common.Disk.{Disk, Files, is_file, attempt, rename, Ext, zst, idx, meta_json}
use sillage.Writer.Index.{for_stream, observe, serialize_index, dimension_names}
use sillage.Writer.Chunker.{
  OpenChunk, WriterConfig, Stamped, World, new_chunker, append, seal_files, seal_chunk, fresh_chunk,
  chunk_path, insert_open, open_chunk, make_room, seal_lookahead_chunks, seal_all, raise_watermark,
  ingest, shut_down,
}
use sillage.Writer.Chunker.Sidecar.{stem_path, Trio}
use sillage.Writer.Chunker.Calls.{
  Call, ingest_call, shut_down_call, serve, serve_all, serve_all-Trio,
}
use sillage.Tests.Bitmaps.{list_bitmaps}
use sillage.Tests.Codec.{encode_one, pk, transaction_of}
use sillage.Writer.Chunker.Sealing.{ingest-lookup}
use sillage.Writer.Chunker.Sealed.{shut_down-is_file}
use sillage.Common.Packages.{Packages}
use sillage.Tests.Packaged.{packages_of, two_meta, small_packages, json_one}

abbrev small_config : WriterConfig
small_config = record {
  slots_per_chunk = 10;
  out_of_order_tolerance_slots = 2;
  max_open_chunks = 3;
}

abbrev at : ℕ → SubscribeUpdate → Call
at t u = ingest_call t (record { mono = t; wall_ns = t; inner = u }) 5

abbrev two_calls : List Call
two_calls =
    at 100 (transaction_of true none (pk 1 ∷ []))
    ∷ at 200 (transaction_of false (some []) (pk 1 ∷ pk 2 ∷ []))
    ∷ shut_down_call
    ∷ []

abbrev empty_disk : List Bool → Disk
empty_disk faults = record { files = []; faults = faults }

abbrev world : List Bool → World list_bitmaps
world faults = record {
  chunker = new_chunker list_bitmaps tx small_config;
  disk = empty_disk faults;
}

abbrev files_after : List Bool → Files
files_after faults = (serve_all list_bitmaps small_packages two_calls (world faults)).disk.files

no_files-Trio : Trio []
unfolding lookup
no_files-Trio = record { with_payload = λ s a b h. h; with_index = λ s a b h. h }

-- With a disk that works, the chunk is complete in the end.
sealed_run : is_file (stem_path tx 0 10 meta_json) (files_after []) ≡ true
unfolding serve_all serve ingest shut_down seal_all seal_chunk seal_files append open_chunk
    make_room fresh_chunk chunk_path insert_open raise_watermark new_chunker attempt rename
    for_stream observe serialize_index encode_one json_one lookup contains_key remove insert
    insert_sorted write_len_prefixed dimension_names
sealed_run = refl

serve_all-Trio_example : Trio (
    (serve_all list_bitmaps small_packages two_calls
      (world (false ∷ false ∷ false ∷ false ∷ true ∷ []))).disk.files)
serve_all-Trio_example =
    serve_all-Trio list_bitmaps small_packages tx small_config
      (empty_disk (false ∷ false ∷ false ∷ false ∷ true ∷ [])) two_calls no_files-Trio

abbrev two_messages : List Call
two_messages =
    at 100 (transaction_of true none (pk 1 ∷ []))
    ∷ at 200 (transaction_of false (some []) (pk 1 ∷ pk 2 ∷ []))
    ∷ []

abbrev filled : Packages → World list_bitmaps
filled P = serve_all list_bitmaps P two_messages (world [])

closes :
    shut_down list_bitmaps small_packages (filled small_packages)
    ≡ (ok tt, (shut_down list_bitmaps small_packages (filled small_packages)).1)
unfolding serve_all serve ingest shut_down seal_all seal_chunk seal_files append open_chunk
    make_room fresh_chunk chunk_path insert_open raise_watermark new_chunker attempt rename
    for_stream observe serialize_index encode_one json_one lookup contains_key remove insert
    insert_sorted write_len_prefixed dimension_names
closes = refl

-- The chunk that the two messages opened.
abbrev opened : OpenChunk list_bitmaps
opened = elim (lookup 0 (filled small_packages).chunker.open_chunks) [
  | none ↦ fresh_chunk list_bitmaps small_packages tx 0 10 0
  | some c ↦ c
]

opened-lookup : lookup 0 (filled small_packages).chunker.open_chunks ≡ some opened
unfolding serve_all serve ingest shut_down seal_all seal_chunk seal_files append open_chunk
    make_room fresh_chunk chunk_path insert_open raise_watermark new_chunker attempt rename
    for_stream observe serialize_index encode_one json_one lookup contains_key remove insert
    insert_sorted write_len_prefixed dimension_names
opened-lookup = refl

shut_down-is_file_example :
    ((k : ℕ)
      → lookup k
          ((shut_down list_bitmaps small_packages (filled small_packages)).1.chunker.open_chunks)
        ≡ none)
    × All
        (λ (e : Ext).
          is_file
            (stem_path tx opened.start_slot opened.end_slot_exclusive e)
            ((shut_down list_bitmaps small_packages (filled small_packages)).1.disk.files)
          ≡ true)
        (zst ∷ idx ∷ meta_json ∷ [])
shut_down-is_file_example =
    shut_down-is_file list_bitmaps small_packages tx small_config (empty_disk []) two_messages
      ((shut_down list_bitmaps small_packages (filled small_packages)).1) 0 opened no_files-Trio
      closes opened-lookup

-- The chunk of slot 5 is sealed when a message of slot 25 arrives.
abbrev passing : Packages
passing = packages_of (record two_meta { sealed_reason = "watermark" })

abbrev later_message : Stamped
later_message = record { mono = 300; wall_ns = 300; inner = transaction_of true none [] }

abbrev passed : World list_bitmaps
passed = (ingest list_bitmaps passing 300 later_message 25 (filled passing)).1

passes : ingest list_bitmaps passing 300 later_message 25 (filled passing) ≡ (ok tt, passed)
unfolding serve_all serve ingest shut_down seal_all seal_chunk seal_files append open_chunk
    make_room fresh_chunk chunk_path insert_open raise_watermark new_chunker attempt rename
    for_stream observe serialize_index encode_one json_one lookup contains_key remove insert
    insert_sorted write_len_prefixed dimension_names
passes = refl

ten_slots : eqb (filled passing).chunker.cfg.slots_per_chunk 0 ≡ false
unfolding serve_all serve ingest shut_down seal_all seal_chunk seal_files append open_chunk
    make_room fresh_chunk chunk_path insert_open raise_watermark new_chunker attempt rename
    for_stream observe serialize_index encode_one json_one lookup contains_key remove insert
    insert_sorted write_len_prefixed dimension_names
ten_slots = refl

in_time :
    ltb
      (add64 25 (filled passing).chunker.cfg.out_of_order_tolerance_slots)
      (raise_watermark list_bitmaps passing (filled passing).chunker.watermark_slot 25)
    ≡ false
unfolding serve_all serve ingest shut_down seal_all seal_chunk seal_files append open_chunk
    make_room fresh_chunk chunk_path insert_open raise_watermark new_chunker attempt rename
    for_stream observe serialize_index encode_one json_one lookup contains_key remove insert
    insert_sorted write_len_prefixed dimension_names
in_time = refl

two_behind :
    leb (add64 0 seal_lookahead_chunks) (
      raise_watermark list_bitmaps passing (filled passing).chunker.watermark_slot 25
      / (filled passing).chunker.cfg.slots_per_chunk)
    ≡ true
unfolding serve_all serve ingest shut_down seal_all seal_chunk seal_files append open_chunk
    make_room fresh_chunk chunk_path insert_open raise_watermark new_chunker attempt rename
    for_stream observe serialize_index encode_one json_one lookup contains_key remove insert
    insert_sorted write_len_prefixed dimension_names
two_behind = refl

ingest-lookup_example : lookup 0 passed.chunker.open_chunks ≡ none
ingest-lookup_example =
    ingest-lookup list_bitmaps passing 300 later_message 25 (filled passing) passed 0 ten_slots
      in_time passes two_behind
