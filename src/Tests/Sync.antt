-- ===== src/Tests/Sync.antt =====
-- A sync of a small bucket.
use mathlib.Core.Logic.{◌≢◌}
use sillage.Prelude.{
  remove, ℕ, zero, suc, ◌≡◌, Option, none, some, Bool, List, [], ◌∷◌, lookup, arith, true, false,
  ◌&&◌,
}
use sillage.Common.Stream.{tx, acct}
use sillage.Common.Disk.{Disk, Ext, zst, meta_json, path_eq, remove_file, attempt}
use sillage.Writer.Chunker.Sidecar.{stem_path, Trio}
use sillage.Reader.Sync.{
  R2Chunk, newest, retention_slots, local_chunks, diff_for_sync, get_with_retry, partial_path,
  download_chunk, sweep_retention, evict_below, evict, try_remove,
}
use sillage.Reader.Sync.Diff.{Sorted, tally, wanted, diff_for_sync-Sorted}
use sillage.Reader.Sync.Download.{
  first_answer, fetched, download_chunk-Trio, get_with_retry-fetched,
}
use sillage.Reader.Sync.Sweep.{sweep_retention-keeps, same_chunk, sweep_retention-needed}

abbrev old_chunk : R2Chunk
old_chunk = record {
  stream = tx;
  start_slot = 0;
  end_slot = 10;
  key_prefix = "chunks/tx/000000000000-000000000010";
}

abbrev new_chunk : R2Chunk
new_chunk = record {
  stream = acct;
  start_slot = 99_990;
  end_slot = 100_000;
  key_prefix = "chunks/acct/000000099990-000000100000";
}

abbrev bucket : List R2Chunk
bucket = old_chunk ∷ new_chunk ∷ []

diff_for_sync-Sorted_example :
    Sorted (diff_for_sync [] bucket 1)
    × ((p : R2Chunk → Bool)
        → tally p (diff_for_sync [] bucket 1) ≡ tally (λ c. wanted [] bucket 1 c && p c) bucket)
diff_for_sync-Sorted_example = diff_for_sync-Sorted [] bucket 1 (omega arith)

-- The first attempt for a file fails, the second is answered.
abbrev flaky : Ext → ℕ → Option (List ℕ)
flaky e zero = none
flaky e (suc n) = some (7 ∷ [])

no_files-Trio : Trio []
unfolding lookup
no_files-Trio = record { with_payload = λ s a b h. h; with_index = λ s a b h. h }

download_chunk-Trio_example :
    Trio
      (download_chunk flaky 2 new_chunk (record { files = []; faults = false ∷ true ∷ [] })).1.files
download_chunk-Trio_example =
    download_chunk-Trio flaky 2 new_chunk (record { files = []; faults = false ∷ true ∷ [] })
      no_files-Trio

get_with_retry-fetched_example :
    get_with_retry
      (flaky zst)
      (partial_path (stem_path tx 0 10 zst))
      3
      (record { files = []; faults = [] })
    ≡ fetched (partial_path (stem_path tx 0 10 zst)) [] 3 (first_answer (flaky zst) 0 3)
get_with_retry-fetched_example =
    get_with_retry-fetched (flaky zst) (partial_path (stem_path tx 0 10 zst)) 3 []

abbrev both_held : Disk
both_held = record {
  files =
      (stem_path tx 0 10 meta_json, 9 ∷ [])
      ∷ (stem_path tx 0 10 zst, 5 ∷ [])
      ∷ (stem_path acct 99_990 100_000 meta_json, 9 ∷ [])
      ∷ [];
  faults = false ∷ true ∷ [];
}

abbrev swept_whole : Disk
swept_whole = record both_held { faults = [] }

sweep_retention-keeps_example :
    lookup (stem_path acct 99_990 100_000 meta_json) (sweep_retention 1 both_held).1.files
    ≡ lookup (stem_path acct 99_990 100_000 meta_json) both_held.files
unfolding local_chunks newest retention_slots
sweep_retention-keeps_example =
    sweep_retention-keeps 1 (stem_path acct 99_990 100_000 meta_json) both_held (omega arith)

-- The sidecar of the old chunk is swept.
sidecar_swept :
    lookup (stem_path tx 0 10 meta_json) (sweep_retention 1 swept_whole).1.files
    ≢ lookup (stem_path tx 0 10 meta_json) swept_whole.files
unfolding sweep_retention evict_below evict try_remove remove_file attempt local_chunks newest
    retention_slots lookup remove
sidecar_swept = cc

sweep_retention-needed_example :
    tally
      (same_chunk old_chunk)
      (diff_for_sync (local_chunks (sweep_retention 1 swept_whole).1.files) bucket 1)
    ≡ 0
unfolding local_chunks newest
sweep_retention-needed_example =
    sweep_retention-needed 1 bucket old_chunk meta_json swept_whole (omega arith) sidecar_swept
