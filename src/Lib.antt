-- ===== src/Lib.antt =====
-- Sillage: a writer archives the updates of a Solana node in chunks of consecutive slots, and a
-- reader replays them to subscribers that filter by transaction, account or block.
--
-- The writer batches messages into open chunks (sillage-writer/src/chunker.rs), indexes them by
-- their ordinals (sillage-writer/src/index.rs), and seals a chunk into a payload of length-prefixed
-- frames (sillage-common/src/chunk.rs), an index (sillage-common/src/idx.rs) and a sidecar, which
-- marks the chunk as complete. The reader scans for complete chunks and decodes them
-- (sillage-reader/src/storage.rs), answers filters on their indexes (sillage-reader/src/index.rs,
-- filter.rs), merges the selected messages of the streams by slot (replay.rs) and paces what it
-- sends (pacing.rs). Uploader (sillage-writer/src/uploader.rs) and syncer (sillage-reader/src/sync.rs)
-- carry the chunks from one disk to the other by way of a bucket.
--
-- Files, and what they model:
--   Prelude           Boolean tests, lists over the native numbers, maps as association lists, words
--                     of 64 and 32 bits, results; lemmas that the components share.
--   Common.Stream     sillage-common/src/stream.rs: Stream.
--   Common.Update     the messages, and sillage-common/src/slot.rs: extract_slot.
--   Common.Chunk      sillage-common/src/chunk.rs: ChunkMeta, write_len_prefixed, FrameIter.
--   Common.Idx        sillage-common/src/idx.rs: dimensions, values, headers.
--   Common.Roaring    the operations of RoaringBitmap that are used, with their laws.
--   Common.Packages   serde_json, zstd, prost and rmp_serde as functions with their round trips.
--   Common.Disk       the files under chunks/<stream>/, with operations that may fail.
--   Writer.Index      sillage-writer/src/index.rs: IndexBuilder.
--   Writer.Chunker    sillage-writer/src/chunker.rs: Chunker, OpenChunk.
--   Writer.Recovery   sillage-writer/src/recovery.rs: run_recovery.
--   Writer.Uploader   sillage-writer/src/uploader.rs: upload_chunk, sweep_retention; and
--                     R2Client::put_file of r2.rs.
--   Reader.Index      sillage-reader/src/index.rs: parse_chunk_index, ChunkIndex.
--   Reader.Filter     sillage-reader/src/filter.rs: filter_tx, filter_acct, filter_block.
--   Reader.Cache      the LRU caches: IndexCache (index.rs), ChunkCache (storage.rs).
--   Reader.Catalog    sillage-reader/src/storage.rs: ChunkCatalog.
--   Reader.Decoded    sillage-reader/src/storage.rs: DecodedChunk.
--   Reader.Pacing     sillage-reader/src/pacing.rs: Pacer.
--   Reader.Subscription  sillage-reader/src/subscription.rs: parse_subscribe_request.
--   Reader.Replay     sillage-reader/src/replay.rs: extract_recv_ns, set_filters; below it Plan
--                     (plan_replay), Cursor (StreamCursor) and Drive (drive_replay).
--   Reader.Sync       sillage-reader/src/sync.rs: diff_for_sync, download_chunk, the sweeps; and
--                     R2Client::get_file of r2.rs.
--   Reader.Service    sillage-reader/src/grpc.rs: validate_auth, admit, subscribe, get_slot; and the
--                     registry of customer.rs.
--   Reader.Follow     sillage-reader/src/customer.rs: follow_replay.
--   Tests             concrete packages, small runs, and the theorems applied to them.
--
-- State is passed explicitly. The disk is an association list of files beside a list of faults, of
-- which every operation takes one: a fault makes it fail with nothing done, so the runs under all
-- lists of faults pass through every state in which a crash between two operations leaves the disk.
-- Sums and products of machine words wrap at 2 ^ 64, and the u32 casts at 2 ^ 32; the recency tick
-- of a cache is a number, since it counts accesses. Loops on fuel get as much as they can use: a
-- call of FrameIter::next takes a byte, a round that makes room seals a chunk of the map, and a
-- round of the eviction removes an entry.
--
-- The loop of drive_replay takes one message a round, so one round more than there are selected
-- messages is enough. What happens outside (clocks, the network, shutdowns, the ages of files) is an
-- argument of the definitions, given for each message or attempt.
--
-- Not modelled: network and process code (sillage-writer/src/lane.rs, geyser.rs,
-- sillage-reader/src/server.rs, metrics), logging, and so far the loops of the syncer and the
-- uploader that call the modelled operations in turn, Customer::run, which races a replay against
-- pings, configuration, the probe and the examples.
pub mod Prelude
pub mod Common
pub mod Writer
pub mod Reader
pub mod Tests
