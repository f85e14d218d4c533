-- ===== src/Writer/Uploader.antt =====
-- sillage-writer/src/uploader.rs: sealed chunks go to the bucket, are marked, and are deleted
-- when they are old; and `put_file` of sillage-writer/src/r2.rs.
--
-- `net` says how each attempt to store a file ends. The bucket is keyed like the disk, as the
-- keys have the same format. `stat` is what the file system says of a marker, with its age in
-- seconds.
use mathlib.Core.Bool.{◌&&◌, not}
use sillage.Prelude.{
  ℕ, zero, suc, ◌+◌, ◌-◌, ◌*◌, ◌/◌, ◌%◌, min, Option, none, some, Bool, true, false, List, [], ◌∷◌,
  eqb, ltb, if◌then◌else◌, Result, ok, err, lookup, insert, mul64, u32_mod, u64_mod,
}
use sillage.Common.Stream.{Stream}
use sillage.Common.Disk.{
  Files, FilePath, Disk, IoError, M, ◌>>=◌, ◌>>◌, create, sync, rename, remove_file, Ext, zst, idx,
  meta_json, uploaded, path_eq, ext_beq, is_file,
}
use sillage.Writer.Chunker.Sidecar.{stem_path}
pub mod Kept

pub record PendingChunk : Type 0 where
  pub stream : Stream
  pub start_slot : ℕ
  pub end_slot : ℕ

-- The file is stored, it is stored but the answer is lost, or it is not stored.
pub data PutResult : Type 0 where
  acknowledged unacknowledged refused : PutResult

pub data UploadError : Type 0 where
  io : IoError → UploadError
  unreadable put_failed no_attempts : UploadError

pub record Site : Type 0 where
  pub disk : Disk
  pub bucket : Files

abbrev pub store : FilePath → List ℕ → Site → Site
store p bs s = record s { bucket = insert p bs s.bucket }

unfoldable pub put_file : PutResult → FilePath → M Site UploadError (Unit {0})
put_file answer p s = elim (lookup p s.disk.files) [
  | none ↦ (err unreadable, s)
  | some bs ↦ elim answer [
    | acknowledged ↦ (ok tt, store p bs s)
    | unacknowledged ↦ (err put_failed, store p bs s)
    | refused ↦ (err put_failed, s)
  ]
]

-- The attempts from the given one on; an error is the last attempt's.
unfoldable pub puts : (ℕ → PutResult) → FilePath → ℕ → ℕ → M Site UploadError (Unit {0})
puts net p n zero s = (err no_attempts, s)
puts net p n (suc left) s =
    let (r, s') = put_file (net n) p s in
    elim r [
      | ok u ↦ (ok u, s')
      | err e ↦ if eqb left 0 then (err e, s') else puts net p (suc n) left s'
    ]

unfoldable pub put_with_retry : (ℕ → PutResult) → ℕ → FilePath → M Site UploadError (Unit {0})
unfolding puts
put_with_retry net retry_attempts p = puts net p 0 retry_attempts

-- An operation on the disk alone.
unfoldable pub on_disk : {E A : Type 0} → M Disk E A → M Site E A
on_disk m s = let (r, d) = m s.disk in (r, record s { disk = d })

abbrev pub path_of : PendingChunk → Ext → FilePath
path_of c e = stem_path c.stream c.start_slot c.end_slot e

abbrev pub partial_marker : PendingChunk → FilePath
partial_marker c = record (path_of c uploaded) { partial = true }

-- The marker is created under a partial name, synced and renamed.
abbrev pub mark : PendingChunk → M Disk UploadError (Unit {0})
mark c =
    create io (partial_marker c) >> sync io >> rename io (partial_marker c) (path_of c uploaded)

unfoldable pub upload_chunk :
    (Ext → ℕ → PutResult) → ℕ → PendingChunk → M Site UploadError (Unit {0})
unfolding put_with_retry on_disk
upload_chunk net retry_attempts c =
    put_with_retry (net zst) retry_attempts (path_of c zst)
    >> put_with_retry (net idx) retry_attempts (path_of c idx)
    >> put_with_retry (net meta_json) retry_attempts (path_of c meta_json)
    >> on_disk (mark c)

-- `metadata`, `modified` and `duration_since` of a marker.
pub data Stat : Type 0 where
  no_metadata no_mtime in_future : Stat
  aged : ℕ → Stat

abbrev pub is_marker : FilePath → Bool
is_marker p = ext_beq p.ext uploaded && not p.partial

-- A sibling is removed if it exists, and a failure is logged.
unfoldable pub evict_file : FilePath → Ext → Disk → Disk
evict_file p e d =
    if is_file (record p { ext = e }) d.files
    then (remove_file io (record p { ext = e }) d).1
    else d

unfoldable pub evict_chunk : FilePath → Disk → Disk
unfolding evict_file
evict_chunk p d =
    evict_file p uploaded (evict_file p meta_json (evict_file p idx (evict_file p zst d)))

-- The loop over the listed files; a marker without metadata ends it with an error.
unfoldable pub sweep_entries :
    (FilePath → Stat) → ℕ → Files → ℕ → Disk → Result UploadError ℕ × Disk
unfolding evict_chunk
sweep_entries stat retention [] evicted d = (ok evicted, d)
sweep_entries stat retention ((p, bs) ∷ m) evicted d =
    let next = sweep_entries stat retention m evicted d in
    let swept = sweep_entries stat retention m ((evicted + 1) % u32_mod) (evict_chunk p d) in
    if is_marker p
    then elim (stat p) [
      | no_metadata ↦ (err unreadable, d)
      | no_mtime ↦ next
      | in_future ↦ next
      | aged age ↦ if ltb retention age then swept else next
    ]
    else next

unfoldable pub sweep_retention : (FilePath → Stat) → ℕ → Disk → Result UploadError ℕ × Disk
unfolding sweep_entries
sweep_retention stat retention_hours d = sweep_entries stat (mul64 retention_hours 3600) d.files 0 d

-- What the loop of `run` does to the disk and the bucket: sweeps, and uploads of the chunks it
-- found. The uploads of a scan run at the same time, each on the files of its own chunk; here
-- they follow one another.
pub data Act : Type 0 where
  upload : (Ext → ℕ → PutResult) → PendingChunk → Act
  sweep : (FilePath → Stat) → Act

unfoldable pub act : (retry_attempts retention_hours : ℕ) → Act → Site → Site
act retry_attempts retention_hours (upload net c) s = (upload_chunk net retry_attempts c s).1
act retry_attempts retention_hours (sweep stat) s = record s {
  disk = (sweep_retention stat retention_hours s.disk).1;
}

unfoldable pub act_all : (retry_attempts retention_hours : ℕ) → List Act → Site → Site
unfolding act
act_all retry_attempts retention_hours [] s = s
act_all retry_attempts retention_hours (a ∷ later) s =
    act_all retry_attempts retention_hours later (act retry_attempts retention_hours a s)

-- `disk_usage_pct`; the subtraction and the product wrap.
unfoldable pub disk_usage_pct : (blocks bavail : ℕ) → ℕ
disk_usage_pct zero bavail = 0
disk_usage_pct (suc b) bavail =
    let used = ((suc b + u64_mod) - bavail) % u64_mod in min 100 (mul64 used 100 / suc b)
