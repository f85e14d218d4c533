-- ===== src/Writer/Recovery/Listing.antt =====
-- Reading the directories and making the report change no file (sillage-writer/src/recovery.rs).
use sillage.Prelude.{Result, ok, err, ◌≡◌, refl, List, [], ◌∷◌}
use sillage.Common.Stream.{Stream, all_streams}
use sillage.Common.Disk.{path_eq, Files, Disk, IoError, M, ◌>>=◌, sync}
use sillage.Common.Disk.Runs.{Post, Runs, Runs-bind, attempt-Runs}
use sillage.Writer.Recovery.{
  list_dir, recover_streams, count_unuploaded, sweep_partials, latest_sealed_end_slot, run_recovery,
}

-- Reading a directory changes no file.
abbrev Same : Files → Disk → Type 0
Same m d = d.files ≡ m

list_dir-Same : (m : Files) → Runs (Same m) (Same m) list_dir (λ _. Same m)
unfolding list_dir
list_dir-Same m =
    Runs-bind (Same m) (λ _. Same m) (λ _. Same m) (Same m) (sync (λ e. e)) (λ _ d. (ok d.files, d))
      (attempt-Runs (λ e. e) (λ k. k ≡ m) (λ k. k ≡ m) (λ k. k ≡ m) (λ k h. h) (λ k. k) (λ k h. h))
      (λ _ d h. h)

Post-Same :
    {A : Type 0} (m : Files) (x : Result IoError A × Disk)
    → Post (Same m) (λ _. Same m) x
    → x.1.files ≡ m
Post-Same m (ok a, d) h = h
Post-Same m (err e, d) h = h

pub list_dir-files : (d : Disk) → (list_dir d).1.files ≡ d.files
list_dir-files d = Post-Same d.files (list_dir d) (list_dir-Same d.files d refl)

then-Same :
    {A B : Type 0} (m : Files) (k : M Disk IoError A) (f : A → M Disk IoError B)
    → Runs (Same m) (Same m) k (λ _. Same m)
    → ((a : A) → Runs (Same m) (Same m) (f a) (λ _. Same m))
    → Runs (Same m) (Same m) (k >>= f) (λ _. Same m)
then-Same m k f h g = Runs-bind (Same m) (λ _. Same m) (λ _. Same m) (Same m) k f h g

recover_streams-Same :
    (m : Files) (ss : List Stream) → Runs (Same m) (Same m) (recover_streams ss) (λ _. Same m)
unfolding recover_streams latest_sealed_end_slot count_unuploaded
recover_streams-Same m [] = λ d h. h
recover_streams-Same m (s ∷ ss) =
    then-Same m (latest_sealed_end_slot s) _
      (then-Same m list_dir _ (list_dir-Same m) (λ files d h. h))
      (λ resume_slot.
        then-Same m (count_unuploaded s) _
          (then-Same m list_dir _ (list_dir-Same m) (λ files d h. h))
          (λ unuploaded.
            then-Same m (recover_streams ss) _ (recover_streams-Same m ss) (λ rest d h. h)))

pub run_recovery-files : (d : Disk) → (run_recovery d).1.files ≡ (sweep_partials d).1.files
unfolding run_recovery
run_recovery-files d =
    let d' = (sweep_partials d).1 in
    Post-Same d'.files (run_recovery d) (
      then-Same d'.files (recover_streams all_streams) _ (recover_streams-Same d'.files all_streams)
        (λ per_stream d h. h) d' refl)
