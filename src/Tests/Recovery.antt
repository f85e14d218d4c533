-- ===== src/Tests/Recovery.antt =====
-- A disk after a crash: a sealed chunk, and a payload that was not sealed.
use sillage.Prelude.{
  ok, ℕ, ◌≡◌, refl, some, Bool, true, not, ◌&&◌, ◌||◌, List, [], ◌∷◌, lookup, All, anyb, leb, eqb,
}
use sillage.Common.Stream.{tx}
use sillage.Common.Disk.{FilePath, path_eq, Files, Disk, zst, idx, meta_json, is_file, attempt}
use sillage.Writer.Chunker.Sidecar.{stem_path}
use sillage.Writer.Recovery.{is_sealed, latest_from, latest_sealed_end_slot, run_recovery}
use sillage.Writer.Recovery.Sweep.{
  run_recovery-lookup, run_recovery-is_file, latest_sealed_end_slot-covers,
}

abbrev unsealed : FilePath
unsealed = record (stem_path tx 10 20 zst) { partial = true }

abbrev crashed : Files
crashed =
    (stem_path tx 0 10 zst, 5 ∷ [])
    ∷ (stem_path tx 0 10 idx, 6 ∷ [])
    ∷ (stem_path tx 0 10 meta_json, 9 ∷ [])
    ∷ (unsealed, [])
    ∷ []

abbrev disk_of : List Bool → Disk
disk_of faults = record { files = crashed; faults = faults }

run_recovery-lookup_example :
    lookup (stem_path tx 0 10 idx) ((run_recovery (disk_of (true ∷ []))).1.files)
    ≡ lookup (stem_path tx 0 10 idx) crashed
run_recovery-lookup_example = run_recovery-lookup (disk_of (true ∷ [])) (stem_path tx 0 10 idx) refl

run_recovery-is_file_example :
    is_file unsealed ((run_recovery (disk_of [])).1.files) ≡ (not true && is_file unsealed crashed)
run_recovery-is_file_example = run_recovery-is_file (disk_of []) unsealed refl

crashed_resumes : latest_sealed_end_slot tx (disk_of []) ≡ (ok (some 10), disk_of [])
unfolding latest_sealed_end_slot latest_from attempt
crashed_resumes = refl

latest_sealed_end_slot-covers_example :
    All (λ (f : FilePath × List ℕ). (not (is_sealed tx f.0) || leb f.0.end_slot 10) ≡ true) crashed
    × (anyb (λ (f : FilePath × List ℕ). is_sealed tx f.0 && eqb f.0.end_slot 10) crashed ≡ true)
latest_sealed_end_slot-covers_example =
    latest_sealed_end_slot-covers tx (disk_of []) (disk_of []) 10 crashed_resumes
