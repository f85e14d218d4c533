-- ===== src/Writer/Recovery.antt =====
-- sillage-writer/src/recovery.rs: what a writer does about an earlier crash when it starts.
--
-- A directory is the files of a stream, in the order of the list. Reading it may fail: the sweep
-- then passes over it, and the report is not made.
use sillage.Prelude.{
  ℕ, ◌+◌, ◌%◌, max, Option, none, some, Bool, true, false, not, ◌&&◌, List, [], ◌∷◌, if◌then◌else◌,
  Result, ok, err, u32_mod, lookup,
}
use sillage.Common.Stream.{Stream, all_streams, stream_beq}
use sillage.Common.Disk.{
  FilePath, Ext, meta_json, uploaded, ext_beq, Files, Disk, IoError, M, ◌>>=◌, and_then, pure, sync,
  remove_file, is_file, path_eq,
}
pub mod Listing
pub mod Latest
pub mod Sweep

pub record StreamRecovery : Type 0 where
  pub stream : Stream
  pub resume_slot : Option ℕ
  pub unuploaded : ℕ

pub record RecoveryReport : Type 0 where
  pub partials_removed : ℕ
  pub per_stream : List StreamRecovery

-- A file that could not be removed is left, and not counted.
counted : ℕ → Result IoError (Unit {0}) → ℕ
counted count (ok u) = (count + 1) % u32_mod
counted count (err e) = count

-- The loop over one directory, with the entries that were listed.
unfoldable pub sweep_dir : Stream → Files → ℕ → Disk → ℕ × Disk
unfolding counted
sweep_dir s [] count d = (count, d)
sweep_dir s ((p, bs) ∷ l) count d =
    if stream_beq p.stream s && p.partial
    then (let (r, d') = remove_file (λ e. e) p d in sweep_dir s l (counted count r) d')
    else sweep_dir s l count d

-- `read_dir`.
unfoldable pub list_dir : M Disk IoError Files
list_dir = sync (λ e. e) >>= λ _ d. (ok d.files, d)

-- A directory that cannot be read is passed over.
unfoldable pub sweep_listed : Stream → Result IoError Files → ℕ → Disk → ℕ × Disk
sweep_listed s (ok files) count d = sweep_dir s files count d
sweep_listed s (err e) count d = (count, d)

unfoldable pub sweep_streams : List Stream → ℕ → Disk → ℕ × Disk
unfolding list_dir sweep_listed
sweep_streams [] count d = (count, d)
sweep_streams (s ∷ ss) count d =
    let (r, d1) = list_dir d in let (n, d2) = sweep_listed s r count d1 in sweep_streams ss n d2

unfoldable pub sweep_partials : Disk → ℕ × Disk
sweep_partials d = sweep_streams all_streams 0 d

-- The sidecar of a sealed chunk of the stream.
abbrev pub is_sealed : Stream → FilePath → Bool
is_sealed s p = stream_beq p.stream s && (ext_beq p.ext meta_json && not p.partial)

-- `Some(max_end.map_or(end, |m| m.max(end)))`.
abbrev pub max_end : Option ℕ → ℕ → Option ℕ
max_end none end = some end
max_end (some m) end = some (max m end)

unfoldable pub latest_from : Stream → Files → Option ℕ → Option ℕ
latest_from s [] acc = acc
latest_from s ((p, bs) ∷ l) acc =
    latest_from s l (if is_sealed s p then max_end acc p.end_slot else acc)

unfoldable pub latest_sealed_end_slot : Stream → M Disk IoError (Option ℕ)
unfolding list_dir latest_from
latest_sealed_end_slot s = list_dir >>= λ files. pure (latest_from s files none)

unfoldable pub count_from : Stream → Files → Files → ℕ → ℕ
count_from s files [] count = count
count_from s files ((p, bs) ∷ l) count = count_from s files l (
    if is_sealed s p && not (is_file (record p { ext = uploaded }) files)
    then (count + 1) % u32_mod
    else count)

unfoldable pub count_unuploaded : Stream → M Disk IoError ℕ
unfolding list_dir count_from
count_unuploaded s = list_dir >>= λ files. pure (count_from s files files 0)

unfoldable pub recover_streams : List Stream → M Disk IoError (List StreamRecovery)
unfolding latest_sealed_end_slot count_unuploaded
recover_streams [] = pure []
recover_streams (s ∷ ss) = latest_sealed_end_slot s >>= λ resume_slot.
    count_unuploaded s >>= λ unuploaded. recover_streams ss >>= λ rest.
    pure (record { stream = s; resume_slot = resume_slot; unuploaded = unuploaded } ∷ rest)

unfoldable pub run_recovery : M Disk IoError RecoveryReport
unfolding sweep_partials recover_streams
run_recovery d =
    let (n, d') = sweep_partials d in
    (recover_streams all_streams >>= λ per_stream.
    pure (record { partials_removed = n; per_stream = per_stream }))
      d'
