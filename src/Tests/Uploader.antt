-- ===== src/Tests/Uploader.antt =====
-- An upload over a flaky network, and a sweep.
use sillage.Prelude.{ℕ, zero, suc, ◌≡◌, ◌⊎◌, refl, some, true, false, List, [], ◌∷◌, lookup, arith}
use sillage.Common.Stream.{tx}
use sillage.Common.Disk.{Files, FilePath, Ext, zst, idx, meta_json, path_eq, is_file}
use sillage.Writer.Chunker.Sidecar.{stem_path}
use sillage.Writer.Uploader.{
  PutResult, acknowledged, unacknowledged, Site, PendingChunk, aged, Act, upload, sweep, act_all,
}
use sillage.Writer.Uploader.Kept.{marker_of}
use sillage.Writer.Uploader.Kept.Losses.{act_all-safe}

abbrev sealed : Files
sealed =
    (stem_path tx 0 10 zst, 5 ∷ [])
    ∷ (stem_path tx 0 10 idx, 6 ∷ [])
    ∷ (stem_path tx 0 10 meta_json, 9 ∷ [])
    ∷ []

abbrev before_upload : Site
before_upload = record { disk = record { files = sealed; faults = false ∷ true ∷ [] }; bucket = [] }

-- The first attempt's answer is lost.
abbrev flaky_net : Ext → ℕ → PutResult
flaky_net e zero = unacknowledged
flaky_net e (suc n) = acknowledged

abbrev sealed_chunk : PendingChunk
sealed_chunk = record { stream = tx; start_slot = 0; end_slot = 10 }

abbrev night : List Act
night = upload flaky_net sealed_chunk ∷ sweep (λ p. aged 100_000) ∷ []

unmarked : (p : FilePath) → is_file (marker_of p) sealed ≡ false
unfolding lookup
unmarked p = ground arith

act_all-safe_example :
    (lookup (stem_path tx 0 10 idx) (act_all 3 24 night before_upload).disk.files ≡ some (6 ∷ []))
    ⊎ (lookup (stem_path tx 0 10 idx) (act_all 3 24 night before_upload).bucket ≡ some (6 ∷ []))
unfolding lookup
act_all-safe_example =
    act_all-safe 3 24 night before_upload (stem_path tx 0 10 idx) (6 ∷ []) unmarked refl refl
