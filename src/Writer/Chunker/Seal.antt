-- ===== src/Writer/Chunker/Seal.antt =====
-- `Chunker::seal_chunk` on the disk: the stages of a seal, from any state and with any failures
-- (sillage-writer/src/chunker.rs).
use sillage.Prelude.{
  ℕ, ◌≡◌, refl, Option, none, some, true, false, List, [], ◌∷◌, Result, ok, err, insert,
}
use sillage.Common.Stream.{Stream}
use sillage.Common.Roaring.{Roaring}
use sillage.Common.Packages.{Packages}
use sillage.Common.Disk.{
  FilePath, zst, idx, meta_json, Disk, Files, M, ◌>>=◌, ◌>>◌, lift, expect, attempt, create,
  write_bytes, sync, rename, path_eq,
}
use sillage.Common.Disk.Runs.{Post, Runs, Runs-bind, Runs-weaken, attempt-Runs, rename-Runs}
use sillage.Writer.Chunker.{
  OpenChunk, ChunkerError, io, indexing, panicked, meta_encoding, SealedReason, write_payload,
  write_partial, file_size, size_or_zero, seal_files, meta_of, chunk_path,
}
use sillage.Writer.Chunker.Sidecar.{
  stem_path, is_sidecar, Trio, Stage, sealed_files, Stage-insert, Stage-move, Stage-finish,
}

abbrev At : (Files → Type 0) → Disk → Type 0
At P d = P d.files

-- Between two stages, every failure leaves the files of a complete chunk together.
abbrev Goes : {A : Type 0} → List FilePath → M Disk ChunkerError A → List FilePath → Type 0
Goes ps m qs = Runs (At Trio) (At (Stage ps)) m (λ _. At (Stage qs))

Stage-weak : (ps : List FilePath) (m : Files) → Stage ps m → Trio m
Stage-weak ps m st = st.0

write-Goes :
    (ps : List FilePath) (p : FilePath) (bs : List ℕ)
    → is_sidecar p ≡ false
    → Goes ps (write_bytes io p bs) ps
write-Goes ps p bs h =
    attempt-Runs io Trio (Stage ps) (Stage ps) (Stage-weak ps) (insert p bs)
      (λ m. Stage-insert ps p bs m h)

sync-Goes : (ps : List FilePath) → Goes ps (sync io) ps
sync-Goes ps = attempt-Runs io Trio (Stage ps) (Stage ps) (Stage-weak ps) (λ m. m) (λ m st. st)

bind-Goes :
    {A B : Type 0} (ps qs rs : List FilePath) (m : M Disk ChunkerError A)
    (f : A → M Disk ChunkerError B)
    → Goes ps m qs
    → ((a : A) → Goes qs (f a) rs)
    → Goes ps (m >>= f) rs
bind-Goes ps qs rs m f h k =
    Runs-bind (At Trio) (λ _. At (Stage qs)) (λ _. At (Stage rs)) (At (Stage ps)) m f h k

expect-Goes :
    {A : Type 0} (ps : List FilePath) (o : Option A) (e : ChunkerError) → Goes ps (expect o e) ps
expect-Goes ps none e d st = st.0
expect-Goes ps (some a) e d st = st

lift-Goes :
    {A F : Type 0} (ps : List FilePath) (wrap : F → ChunkerError) (r : Result F A)
    → Goes ps (lift wrap r) ps
lift-Goes ps wrap (ok a) d st = st
lift-Goes ps wrap (err e) d st = st.0

module _ (R : Roaring) (P : Packages) where
  size_or_zero-Post :
      (ps : List FilePath) (p : FilePath) (x : Result ChunkerError (Unit {0}) × Disk)
      → Post (At (Stage ps)) (λ _. At (Stage ps)) x
      → Post (At Trio) (λ _. At (Stage ps)) (size_or_zero R P p x)
  unfolding size_or_zero
  size_or_zero-Post ps p (ok u, d) st = st
  size_or_zero-Post ps p (err e, d) st = st

  file_size-Goes : (ps : List FilePath) (p : FilePath) → Goes ps (file_size R P p) ps
  unfolding file_size
  file_size-Goes ps p d st =
      size_or_zero-Post ps p (attempt io (λ m. m) d)
        (attempt-Runs io (Stage ps) (Stage ps) (Stage ps) (λ m st. st) (λ m. m) (λ m st. st) d st)

  write_partial-Goes :
      (ps : List FilePath) (p : FilePath) (bs : List ℕ)
      → is_sidecar p ≡ false
      → Goes ps (write_partial R P p bs) ps
  unfolding write_partial
  write_partial-Goes ps p bs h =
      bind-Goes ps ps ps (create io p) (λ _. write_bytes io p bs >> sync io) (write-Goes ps p [] h)
        (λ _.
          bind-Goes ps ps ps (write_bytes io p bs) (λ _. sync io) (write-Goes ps p bs h)
            (λ _. sync-Goes ps))

  write_payload-Goes :
      (ps : List FilePath) (c : OpenChunk R)
      → is_sidecar c.partial_zst ≡ false
      → Goes ps (write_payload R P c) ps
  unfolding write_payload
  write_payload-Goes ps c h =
      bind-Goes ps ps ps (expect c.encoder panicked) _ (expect-Goes ps c.encoder panicked)
        (λ written.
          bind-Goes ps ps ps (write_bytes io c.partial_zst (P.compress written)) _
            (write-Goes ps c.partial_zst (P.compress written) h)
            (λ _. bind-Goes ps ps ps (sync io) _ (sync-Goes ps) (λ _.
              bind-Goes ps ps ps (file_size R P c.partial_zst) _ (file_size-Goes ps c.partial_zst)
                (λ size. bind-Goes ps ps ps (sync io) _ (sync-Goes ps) (λ _ d st. st)))))

  -- The paths of an open chunk are those of one stream and range.
  pub record HasPaths (s : Stream) (c : OpenChunk R) : Type 0 where
    pub partial_zst_path :
        c.partial_zst ≡ chunk_path R P s c.start_slot c.end_slot_exclusive zst true
    pub partial_meta_path :
        c.partial_meta ≡ chunk_path R P s c.start_slot c.end_slot_exclusive meta_json true
    pub partial_idx_path :
        c.partial_idx ≡ chunk_path R P s c.start_slot c.end_slot_exclusive idx true
    pub final_zst_path : c.final_zst ≡ chunk_path R P s c.start_slot c.end_slot_exclusive zst false
    pub final_meta_path :
        c.final_meta ≡ chunk_path R P s c.start_slot c.end_slot_exclusive meta_json false
    pub final_idx_path : c.final_idx ≡ chunk_path R P s c.start_slot c.end_slot_exclusive idx false

  module _ (s : Stream) (c : OpenChunk R) (paths : HasPaths s c) where
    abbrev payload_path : FilePath
    payload_path = stem_path s c.start_slot c.end_slot_exclusive zst

    abbrev index_path : FilePath
    index_path = stem_path s c.start_slot c.end_slot_exclusive idx

    partial_meta-other : is_sidecar c.partial_meta ≡ false
    unfolding chunk_path
    partial_meta-other = rw paths.partial_meta_path refl

    partial_idx-other : is_sidecar c.partial_idx ≡ false
    unfolding chunk_path
    partial_idx-other = rw paths.partial_idx_path refl

    partial_zst-other : is_sidecar c.partial_zst ≡ false
    unfolding chunk_path
    partial_zst-other = rw paths.partial_zst_path refl

    module _ (ps : List FilePath) where
      payload-Goes : Goes ps (rename io c.partial_zst c.final_zst) (payload_path ∷ ps)
      unfolding chunk_path
      payload-Goes =
          rw (paths.partial_zst_path, paths.final_zst_path)
            (rename-Runs io Trio (Stage ps) (Stage (payload_path ∷ ps)) (Stage-weak ps) _
              payload_path (λ m bs st e. Stage-move ps _ payload_path bs m refl refl refl st))

      index-Goes :
          Goes
            (payload_path ∷ ps)
            (rename io c.partial_idx c.final_idx)
            (index_path ∷ payload_path ∷ ps)
      unfolding chunk_path
      index-Goes =
          rw (paths.partial_idx_path, paths.final_idx_path)
            (rename-Runs io Trio (Stage (payload_path ∷ ps))
              (Stage (index_path ∷ payload_path ∷ ps)) (Stage-weak (payload_path ∷ ps)) _ index_path
              (λ m bs st e. Stage-move (payload_path ∷ ps) _ index_path bs m refl refl refl st))

      sidecar-Goes :
          Goes
            (index_path ∷ payload_path ∷ ps)
            (rename io c.partial_meta c.final_meta)
            (sealed_files s c.start_slot c.end_slot_exclusive ps)
      unfolding chunk_path
      sidecar-Goes =
          rw (paths.partial_meta_path, paths.final_meta_path)
            (rename-Runs io Trio (Stage (index_path ∷ payload_path ∷ ps))
              (Stage (sealed_files s c.start_slot c.end_slot_exclusive ps))
              (Stage-weak (index_path ∷ payload_path ∷ ps)) _ _
              (λ m bs st e. Stage-finish ps s c.start_slot c.end_slot_exclusive _ bs m refl st))

      -- A seal that succeeds leaves the chunk's three files, and those that were there.
      pub seal_files-Goes :
          (t : Stream) (reason : SealedReason)
          → Goes ps
              (seal_files R P t c reason)
              (sealed_files s c.start_slot c.end_slot_exclusive ps)
      unfolding seal_files
      seal_files-Goes t reason =
          let done = sealed_files s c.start_slot c.end_slot_exclusive ps in
          bind-Goes ps ps done (write_payload R P c) _ (write_payload-Goes ps c partial_zst-other)
            (λ size.
              bind-Goes ps ps done (expect (P.to_json (meta_of R P t c reason size)) meta_encoding)
                _ (expect-Goes ps (P.to_json (meta_of R P t c reason size)) meta_encoding)
                (λ meta_bytes.
                  bind-Goes ps ps done (write_partial R P c.partial_meta meta_bytes) _
                    (write_partial-Goes ps c.partial_meta meta_bytes partial_meta-other)
                    (λ _.
                      bind-Goes ps (payload_path ∷ ps) done (rename io c.partial_zst c.final_zst) _
                        payload-Goes
                        (λ _.
                          bind-Goes (payload_path ∷ ps) (payload_path ∷ ps) done (lift indexing _) _
                            (lift-Goes (payload_path ∷ ps) indexing _)
                            (λ idx_bytes.
                              bind-Goes (payload_path ∷ ps) (payload_path ∷ ps) done
                                (write_partial R P c.partial_idx idx_bytes) _
                                (write_partial-Goes (payload_path ∷ ps) c.partial_idx idx_bytes
                                  partial_idx-other)
                                (λ _.
                                  bind-Goes (payload_path ∷ ps) (index_path ∷ payload_path ∷ ps)
                                    done (rename io c.partial_idx c.final_idx) _ index-Goes
                                    (λ _. sidecar-Goes)))))))

    -- The whole seal, from a disk of complete chunks.
    pub seal_files-Runs :
        (t : Stream) (reason : SealedReason)
        → Runs (At Trio) (At Trio) (seal_files R P t c reason) (λ _. At Trio)
    seal_files-Runs t reason =
        Runs-weaken (At Trio) (At (Stage [])) (λ _. At Trio)
          (λ _. At (Stage (sealed_files s c.start_slot c.end_slot_exclusive [])))
          (seal_files R P t c reason) (λ d trio. (trio, tt)) (λ _ d st. st.0)
          (seal_files-Goes [] t reason)
