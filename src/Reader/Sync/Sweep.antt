-- ===== src/Reader/Sync/Sweep.antt =====
-- `sweep_retention` of sillage-reader/src/sync.rs: what it deletes and what it keeps.
use mathlib.Core.Bool.{◌&&◌}
use mathlib.Core.Logic.{◌≢◌}
use sillage.Prelude.{
  Bool, filterb, ℕ, ◌≤◌, ◌≡◌, refl, ◌∙◌, true, false, List, [], ◌∷◌, leb, lookup, lookup-remove,
  map, arith, Bool-cases, Option-cases, inl, inr,
}
use sillage.Common.Disk.{
  Files, FilePath, Disk, attempt, remove_file, Ext, zst, idx, meta_json, path_eq, path_beq,
  path_beq_iff, next_fault,
}
use sillage.Writer.Chunker.Sidecar.{stem_path}
use sillage.Reader.Sync.{
  ChunkKey, key_of, key_beq, is_needed, diff_for_sync, R2Chunk, newest, local_chunks, try_remove,
  evict, evict_below, sweep_retention,
}
use sillage.Reader.Sync.Diff.{cutoff_of, tally, sort-tally, filterb-tally}

try_remove-other :
    (p q : FilePath) (d : Disk)
    → path_beq p q ≡ false
    → lookup q (try_remove p d).files ≡ lookup q d.files
unfolding try_remove remove_file attempt
try_remove-other p q d h = elim (Option-cases (lookup p d.files)) [
  | inl n ↦ rw (try_remove, n) refl
  | inr (bs, n) ↦ elim (Bool-cases (next_fault d.faults)) [
    | inl f ↦ rw (try_remove, n, f) refl
    | inr f ↦ rw (try_remove, n, f) (lookup-remove p q d.files ∙ rw h refl)
  ]
]

-- No file of a chunk that ends at `cutoff` or later is touched.
evict-other :
    (k : ChunkKey) (q : FilePath) (cutoff : ℕ) (d : Disk)
    → leb cutoff k.end_slot ≡ false
    → leb cutoff q.end_slot ≡ true
    → lookup q (evict k d).files ≡ lookup q d.files
unfolding evict
evict-other k q cutoff d h g =
    let path : Ext → FilePath = stem_path k.stream k.start_slot k.end_slot in
    let other : (e : Ext) → path_beq (path e) q ≡ false =
      λ e. ground (arith, path_beq_iff (path e) q) in
    try_remove-other (path meta_json) q _ (other meta_json)
    ∙ try_remove-other (path idx) q _ (other idx)
    ∙ try_remove-other (path zst) q d (other zst)

evict_below-other :
    (cutoff : ℕ) (q : FilePath) (ks : List ChunkKey) (n : ℕ) (d : Disk)
    → leb cutoff q.end_slot ≡ true
    → lookup q (evict_below cutoff ks n d).1.files ≡ lookup q d.files
unfolding evict_below
evict_below-other cutoff q [] n d g = refl
evict_below-other cutoff q (k ∷ ks) n d g = elim (Bool-cases (leb cutoff k.end_slot)) [
  | inl e ↦ rw (evict_below, e) (evict_below-other cutoff q ks n d g)
  | inr e ↦
      rw (evict_below, e)
        (evict_below-other cutoff q ks _ (evict k d) g ∙ evict-other k q cutoff d e g)
]

-- The ends of the chunks that are held.
abbrev pub local_ends : Files → List ℕ
local_ends m = map (λ (k : ChunkKey). k.end_slot) (local_chunks m)

-- Whatever deletions fail, the retention sweep touches no file of a chunk that ends at the cutoff
-- or later.
pub sweep_retention-keeps :
    (hours : ℕ) (q : FilePath) (d : Disk)
    → cutoff_of (local_ends d.files) hours ≤ q.end_slot
    → lookup q (sweep_retention hours d).1.files ≡ lookup q d.files
unfolding sweep_retention
sweep_retention-keeps hours q d h =
    evict_below-other (cutoff_of (local_ends d.files) hours) q (local_chunks d.files) 0 d
      (ground arith)

-- Is it a chunk of the stream and the slots of `c`?
abbrev pub same_chunk : R2Chunk → R2Chunk → Bool
same_chunk c r = key_beq (key_of c) (key_of r)

tally-none :
    (p : R2Chunk → Bool) → ((r : R2Chunk) → p r ≡ false) → (cs : List R2Chunk) → tally p cs ≡ 0
tally-none p h [] = refl
tally-none p h (c ∷ cs) = ground (arith, h c, tally-none p h cs)

-- What ends before the bucket's cutoff is not downloaded.
diff_for_sync-expired :
    (local : List ChunkKey) (remote : List R2Chunk) (hours : ℕ) (c : R2Chunk)
    → leb (cutoff_of (map (λ (c : R2Chunk). c.end_slot) remote) hours) c.end_slot ≡ false
    → tally (same_chunk c) (diff_for_sync local remote hours) ≡ 0
unfolding diff_for_sync is_needed
diff_for_sync-expired local remote hours c h =
    let cutoff = cutoff_of (map (λ (c : R2Chunk). c.end_slot) remote) hours in
    sort-tally (same_chunk c) (filterb (is_needed local cutoff) remote)
    ∙ filterb-tally (same_chunk c) (is_needed local cutoff) remote
    ∙ tally-none (λ r. is_needed local cutoff r && same_chunk c r) (λ r. ground (arith, h)) remote

-- As long as no chunk that is held ends after the newest of the bucket, a chunk of which the
-- retention sweep deletes or changes a file, whatever deletions fail, is not among those that the
-- next sync downloads.
pub sweep_retention-needed :
    (hours : ℕ) (remote : List R2Chunk) (c : R2Chunk) (e : Ext) (d : Disk)
    → newest (local_ends d.files) ≤ newest (map (λ (c : R2Chunk). c.end_slot) remote)
    → lookup (stem_path c.stream c.start_slot c.end_slot e) (sweep_retention hours d).1.files
      ≢ lookup (stem_path c.stream c.start_slot c.end_slot e) d.files
    → tally
        (same_chunk c)
        (diff_for_sync (local_chunks (sweep_retention hours d).1.files) remote hours)
      ≡ 0
sweep_retention-needed hours remote c e d behind swept =
    let cutoff = cutoff_of (map (λ (c : R2Chunk). c.end_slot) remote) hours in
    elim (Bool-cases (leb cutoff c.end_slot)) [
      | inr old ↦
          diff_for_sync-expired (local_chunks (sweep_retention hours d).1.files) remote hours c old
      | inl kept ↦
          let needed : cutoff ≤ c.end_slot = ground (arith, kept) in
          absurd (
            swept (
              sweep_retention-keeps hours (stem_path c.stream c.start_slot c.end_slot e) d
                (omega (arith, behind, needed))))
    ]
