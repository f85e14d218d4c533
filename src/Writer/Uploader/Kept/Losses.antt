-- ===== src/Writer/Uploader/Kept/Losses.antt =====
-- Uploads and sweeps of sillage-writer/src/uploader.rs in any order.
use sillage.Prelude.{ℕ, ◌≡◌, ◌⊎◌, inl, some, true, false, List, [], ◌∷◌, lookup, arith}
use sillage.Common.Disk.{Files, FilePath, path_eq, is_file}
use sillage.Writer.Uploader.{Site, Act, upload, sweep, act, act_all}
use sillage.Writer.Uploader.Kept.{is_data, marker_of, Kept}
use sillage.Writer.Uploader.Kept.Uploads.{upload_chunk-Kept}
use sillage.Writer.Uploader.Kept.Sweeps.{sweep_retention-Kept}

module _ (orig : Files) (retry_attempts retention_hours : ℕ) where
  act-Kept :
      (a : Act) (s : Site)
      → Kept orig s.disk.files s.bucket
      → Kept orig
          (act retry_attempts retention_hours a s).disk.files
          (act retry_attempts retention_hours a s).bucket
  unfolding act
  act-Kept (upload net c) s k = upload_chunk-Kept orig c net retry_attempts s k
  act-Kept (sweep stat) s k = sweep_retention-Kept orig s.bucket stat retention_hours s.disk k

  act_all-Kept :
      (acts : List Act) (s : Site)
      → Kept orig s.disk.files s.bucket
      → Kept orig
          (act_all retry_attempts retention_hours acts s).disk.files
          (act_all retry_attempts retention_hours acts s).bucket
  unfolding act_all
  act_all-Kept [] s k = k
  act_all-Kept (a ∷ acts) s k =
      act_all-Kept acts (act retry_attempts retention_hours a s) (act-Kept a s k)

-- Whatever uploads and sweeps follow one another, and however they fail, a file of a chunk that was
-- on a disk without markers is afterwards on the disk or in the bucket, with the same bytes.
pub act_all-safe :
    (retry_attempts retention_hours : ℕ) (acts : List Act) (s : Site) (q : FilePath) (bs : List ℕ)
    → ((p : FilePath) → is_file (marker_of p) s.disk.files ≡ false)
    → is_data q ≡ true
    → lookup q s.disk.files ≡ some bs
    → (lookup q (act_all retry_attempts retention_hours acts s).disk.files ≡ some bs)
      ⊎ (lookup q (act_all retry_attempts retention_hours acts s).bucket ≡ some bs)
act_all-safe retry_attempts retention_hours acts s q bs unmarked d h =
    let start : Kept s.disk.files s.disk.files s.bucket = record {
      frozen = λ p b dp e. e;
      backed = λ p dp m. ground (arith, unmarked p);
      safe = λ p b dp e. inl e;
    } in
    (act_all-Kept s.disk.files retry_attempts retention_hours acts s start).safe q bs d h
