-- ===== src/Reader/Sync.antt =====
-- sillage-reader/src/sync.rs and the downloading of sillage-reader/src/r2.rs: the chunks of the
-- bucket are copied to the local disk, and those that fall out of the retention window are
-- deleted.
--
-- The bucket and the network are what the attempts to fetch a file answer, `none` for a failure.
-- The deletions of a sweep that fail are only logged, so they leave no trace but the file.
use mathlib.Core.Bool.{◌&&◌, not}
use sillage.Prelude.{
  ℕ, zero, suc, ◌+◌, ◌-◌, ◌*◌, ◌/◌, ◌%◌, max, ◌≡◌, ◌↔◌, Option, none, some, Bool, true, false,
  String, List, [], ◌∷◌, eqb, ltb, leb, if◌then◌else◌, Eq, Result, ok, err, filterb, anyb, length,
  map, mul64, u32_mod, insert, remove, arith,
}
use sillage.Common.Stream.{Stream, tx, acct, block, stream_beq, stream_beq_iff}
use sillage.Common.Disk.{
  Files, FilePath, Disk, IoError, M, ◌>>=◌, ◌>>◌, pure, throw, attempt, create, write_bytes, sync,
  rename, remove_file, Ext, zst, idx, meta_json, path_eq,
}
use sillage.Writer.Chunker.Sidecar.{stem_path, is_sidecar}
pub mod Diff
pub mod Download
pub mod Sweep

pub record ChunkKey : Type 0 where
  pub stream : Stream
  pub start_slot : ℕ
  pub end_slot : ℕ

pub record R2Chunk : Type 0 where
  pub stream : Stream
  pub start_slot : ℕ
  pub end_slot : ℕ
  pub key_prefix : String

abbrev pub key_of : R2Chunk → ChunkKey
key_of c = record { stream = c.stream; start_slot = c.start_slot; end_slot = c.end_slot }

abbrev pub key_beq : ChunkKey → ChunkKey → Bool
key_beq a b =
    stream_beq a.stream b.stream && (eqb a.start_slot b.start_slot && eqb a.end_slot b.end_slot)

-- The chunks whose sidecar has its final name.
unfoldable pub local_chunks : Files → List ChunkKey
local_chunks [] = []
local_chunks ((p, bs) ∷ m) =
    let rest = local_chunks m in
    if is_sidecar p
    then record { stream = p.stream; start_slot = p.start_slot; end_slot = p.end_slot } ∷ rest
    else rest

-- `retention_hours * 3600 * 5 / 2`, which wraps.
unfoldable pub retention_slots : ℕ → ℕ
retention_slots hours = mul64 (mul64 hours 3600) 5 / 2

-- `.max().unwrap_or(0)` of the ends.
unfoldable pub newest : List ℕ → ℕ
newest [] = 0
newest (n ∷ ns) = max n (newest ns)

-- The order of `stream.as_str()`.
abbrev pub rank : Stream → ℕ
rank acct = 0
rank block = 1
rank tx = 2

abbrev pub sorts_before : R2Chunk → R2Chunk → Bool
sorts_before a b =
    if eqb (rank a.stream) (rank b.stream)
    then ltb a.start_slot b.start_slot
    else ltb (rank a.stream) (rank b.stream)

-- `sort_by`, which is stable.
unfoldable pub place : R2Chunk → List R2Chunk → List R2Chunk
place c [] = c ∷ []
place c (d ∷ ds) = let rest = place c ds in if sorts_before d c then d ∷ rest else c ∷ d ∷ ds

unfoldable pub sort : List R2Chunk → List R2Chunk
unfolding place
sort [] = []
sort (c ∷ cs) = place c (sort cs)

unfoldable pub is_needed : List ChunkKey → ℕ → R2Chunk → Bool
is_needed local cutoff c = leb cutoff c.end_slot && not (anyb (key_beq (key_of c)) local)

unfoldable pub diff_for_sync : List ChunkKey → List R2Chunk → ℕ → List R2Chunk
unfolding sort
diff_for_sync local remote hours =
    let cutoff = newest (map (λ (c : R2Chunk). c.end_slot) remote) - retention_slots hours in
    sort (filterb (is_needed local cutoff) remote)

pub data SyncError : Type 0 where
  io : IoError → SyncError
  fetch_failed no_attempts : SyncError

-- `R2Client::get_file`, with the answer to the request.
unfoldable pub get_file : Option (List ℕ) → FilePath → M Disk SyncError ℕ
get_file none dest = throw fetch_failed
get_file (some content) dest =
    create io dest >> write_bytes io dest content >> sync io >> pure (length content)

-- The attempts from the given one on; an error is the last attempt's.
unfoldable pub attempts : (ℕ → Option (List ℕ)) → FilePath → ℕ → ℕ → M Disk SyncError ℕ
attempts answer dest n zero d = (err no_attempts, d)
attempts answer dest n (suc left) d =
    let (r, d') = get_file (answer n) dest d in
    elim r [
      | ok bytes ↦ (ok bytes, d')
      | err e ↦ if eqb left 0 then (err e, d') else attempts answer dest (suc n) left d'
    ]

unfoldable pub get_with_retry : (ℕ → Option (List ℕ)) → FilePath → ℕ → M Disk SyncError ℕ
unfolding attempts
get_with_retry answer dest retry_attempts = attempts answer dest 0 retry_attempts

abbrev pub partial_path : FilePath → FilePath
partial_path p = record p { partial = true }

-- A file of a chunk, by way of a partial one. `create_dir_all` may fail.
unfoldable pub download_file : (ℕ → Option (List ℕ)) → ℕ → FilePath → M Disk SyncError (Unit {0})
unfolding get_with_retry
download_file answer retry_attempts final =
    sync io >> get_with_retry answer (partial_path final) retry_attempts >>= λ bytes.
    rename io (partial_path final) final

unfoldable pub download_chunk :
    (Ext → ℕ → Option (List ℕ)) → ℕ → R2Chunk → M Disk SyncError (Unit {0})
unfolding download_file
download_chunk answer retry_attempts c =
    download_file (answer zst) retry_attempts (stem_path c.stream c.start_slot c.end_slot zst)
    >> download_file (answer idx) retry_attempts (stem_path c.stream c.start_slot c.end_slot idx)
    >> download_file (answer meta_json) retry_attempts
        (stem_path c.stream c.start_slot c.end_slot meta_json)

-- A deletion whose failure is logged.
unfoldable pub try_remove : FilePath → Disk → Disk
try_remove p d = (remove_file io p d).1

-- `sweep_partials`: the files of the directories, as they are listed first.
unfoldable pub sweep_partials : Files → ℕ → Disk → ℕ × Disk
sweep_partials [] deleted d = (deleted, d)
sweep_partials ((p, bs) ∷ m) deleted d = elim p.partial [
  | false ↦ sweep_partials m deleted d
  | true ↦
      let (r, d') = remove_file io p d in
      elim r [
        | ok u ↦ sweep_partials m ((deleted + 1) % u32_mod) d'
        | err e ↦ sweep_partials m deleted d'
      ]
]

-- The three files of a chunk.
unfoldable pub evict : ChunkKey → Disk → Disk
unfolding try_remove
evict k d = try_remove (stem_path k.stream k.start_slot k.end_slot meta_json) (
    try_remove (stem_path k.stream k.start_slot k.end_slot idx)
      (try_remove (stem_path k.stream k.start_slot k.end_slot zst) d))

unfoldable pub evict_below : ℕ → List ChunkKey → ℕ → Disk → ℕ × Disk
unfolding evict
evict_below cutoff [] evicted d = (evicted, d)
evict_below cutoff (k ∷ ks) evicted d =
    let kept = evict_below cutoff ks evicted d in
    let swept = evict_below cutoff ks ((evicted + 1) % u32_mod) (evict k d) in
    if leb cutoff k.end_slot then kept else swept

unfoldable pub sweep_retention : ℕ → Disk → ℕ × Disk
unfolding evict_below
sweep_retention hours d =
    let local = local_chunks d.files in
    let cutoff = newest (map (λ (k : ChunkKey). k.end_slot) local) - retention_slots hours in
    evict_below cutoff local 0 d
