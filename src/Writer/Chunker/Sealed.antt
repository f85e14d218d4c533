-- ===== src/Writer/Chunker/Sealed.antt =====
-- What a shutdown leaves on the disk for the chunks that were open (sillage-writer/src/chunker.rs).
use sillage.Prelude.{
  ℕ, ◌≡◌, refl, sym, ap, ◌∙◌, none, some, true, List, [], ◌∷◌, All, Result, ok, err, lookup, remove,
  All-lookup, All-remove, Option-cases, Bool-cases, inl, inr, eqb, eqb_iff, arith, nat_eq,
}
use sillage.Common.Stream.{Stream}
use sillage.Common.Roaring.{Roaring}
use sillage.Common.Packages.{Packages}
use sillage.Common.Disk.{FilePath, Ext, zst, idx, meta_json, Disk, path_eq, is_file}
use sillage.Common.Disk.Runs.{Post, Post-and_then}
use sillage.Writer.Chunker.{
  OpenChunk, Chunker, World, WriterConfig, ChunkerError, SealedReason, shutdown, seal_files,
  seal_chunk, seal_all, keys, shut_down, new_chunker,
}
use sillage.Writer.Chunker.Sidecar.{stem_path, Trio, Present, Stage, sealed_files}
use sillage.Writer.Chunker.Seal.{HasPaths, seal_files-Goes}
use sillage.Writer.Chunker.Keeps.{AllPaths, Good}
use sillage.Writer.Chunker.Calls.{Call, serve_all, serve_all-Good}
use sillage.Writer.Chunker.Sealing.{
  listed, Leaves, seal_chunk-Leaves, lookup-keys, Post-ok, shut_down-lookup,
}

Post-both :
    {S E A : Type 0} (Q Q' : S → Type 0) (x : Result E A × S)
    → Post (λ _. Unit {0}) (λ _. Q) x
    → Post (λ _. Unit {0}) (λ _. Q') x
    → Post (λ _. Unit {0}) (λ _ s. Q s × Q' s) x
Post-both Q Q' (ok a, s) h g = (h, g)
Post-both Q Q' (err e, s) h g = tt

Post-map :
    {S E A : Type 0} (Q Q' : S → Type 0) (x : Result E A × S)
    → ((s : S) → Q s → Q' s)
    → Post (λ _. Unit {0}) (λ _. Q) x
    → Post (λ _. Unit {0}) (λ _. Q') x
Post-map Q Q' (ok a, s) k h = k s h
Post-map Q Q' (err e, s) k h = tt

module _ (R : Roaring) (P : Packages) (s : Stream) where
  -- A good world with these files under their final names.
  abbrev Keeping : List FilePath → World R → Type 0
  Keeping ps w = Good R P s w × Present ps w.disk.files

  on_disk-Keeping :
      (ps : List FilePath) (c : Chunker R) (x : Result ChunkerError (Unit {0}) × Disk)
      → c.stream ≡ s
      → AllPaths R P s c.open_chunks
      → Post (λ d. Trio d.files) (λ _ d. Stage ps d.files) x
      → Post (λ _. Unit {0}) (λ _. Keeping ps) (x.0, record { chunker = c; disk = x.1 })
  on_disk-Keeping ps c (ok a, d) same paths t =
      (record { stream_same = same; complete = t.0; paths = paths }, t.1)
  on_disk-Keeping ps c (err e, d) same paths t = tt

  abbrev sealed_of : OpenChunk R → List FilePath → List FilePath
  sealed_of c ps = sealed_files s c.start_slot c.end_slot_exclusive ps

  -- A seal that succeeds leaves the files of its chunk, and those that were there.
  seal_chunk-Keeping :
      (i : ℕ) (reason : SealedReason) (c : OpenChunk R) (ps : List FilePath) (w : World R)
      → lookup i w.chunker.open_chunks ≡ some c
      → Keeping ps w
      → Post (λ _. Unit {0}) (λ _. Keeping (sealed_of c ps)) (seal_chunk R P i reason w)
  unfolding seal_chunk
  seal_chunk-Keeping i reason c ps w e k =
      rw (e, seal_chunk)
        (on_disk-Keeping (sealed_of c ps)
          (record (w.chunker) { open_chunks = remove i w.chunker.open_chunks })
          (seal_files R P w.chunker.stream c reason w.disk) k.0.stream_same
          (All-remove (λ p. HasPaths R P s p.1) i w.chunker.open_chunks k.0.paths)
          (seal_files-Goes R P s c
            (All-lookup (λ p. HasPaths R P s p.1) i c w.chunker.open_chunks k.0.paths e) ps
            w.chunker.stream reason w.disk (k.0.complete, k.1)))

  seal_chunk-still :
      (i : ℕ) (reason : SealedReason) (ps : List FilePath) (w : World R)
      → Keeping ps w
      → Post (λ _. Unit {0}) (λ _. Keeping ps) (seal_chunk R P i reason w)
  unfolding seal_chunk
  seal_chunk-still i reason ps w k = elim (Option-cases (lookup i w.chunker.open_chunks)) [
    | inl e ↦ rw (e, seal_chunk) tt
    | inr (c, e) ↦
        Post-map (Keeping (sealed_of c ps)) (Keeping ps) (seal_chunk R P i reason w)
          (λ w' h. (h.0, h.1.1.1.1)) (seal_chunk-Keeping i reason c ps w e k)
  ]

  seal_all-still :
      (reason : SealedReason) (is : List ℕ) (ps : List FilePath) (w : World R)
      → Keeping ps w
      → Post (λ _. Unit {0}) (λ _. Keeping ps) (seal_all R P reason is w)
  unfolding seal_all
  seal_all-still reason [] ps w k = k
  seal_all-still reason (i ∷ is) ps w k =
      Post-and_then (λ _. Unit {0}) (λ _. Keeping ps) (λ _. Keeping ps) (seal_chunk R P i reason w)
        (λ _. seal_all R P reason is) (seal_chunk-still i reason ps w k)
        (λ a w1 k1. seal_all-still reason is ps w1 k1)

  abbrev Sealed : OpenChunk R → World R → Type 0
  Sealed c = Keeping (sealed_of c [])

  -- Every listed chunk that is open gets its files.
  seal_all-Sealed :
      (reason : SealedReason) (is : List ℕ) (j : ℕ) (c : OpenChunk R) (w : World R)
      → lookup j w.chunker.open_chunks ≡ some c
      → listed j is ≡ true
      → Keeping [] w
      → Post (λ _. Unit {0}) (λ _. Sealed c) (seal_all R P reason is w)
  unfolding seal_all
  seal_all-Sealed reason [] j c w e h k = cc
  seal_all-Sealed reason (i ∷ is) j c w e h k = elim (Bool-cases (eqb i j)) [
    | inl q ↦
        let here : lookup i w.chunker.open_chunks ≡ some c =
          ap (λ (n : ℕ). lookup n w.chunker.open_chunks) ((eqb_iff i j).0 q) ∙ e in
        Post-and_then (λ _. Unit {0}) (λ _. Sealed c) (λ _. Sealed c) (seal_chunk R P i reason w)
          (λ _. seal_all R P reason is) (seal_chunk-Keeping i reason c [] w here k)
          (λ a w1 k1. seal_all-still reason is (sealed_of c []) w1 k1)
    | inr q ↦
        Post-and_then (λ _. Unit {0}) (λ _ w1. Keeping [] w1 × Leaves R P (i ∷ []) w w1)
          (λ _. Sealed c) (seal_chunk R P i reason w) (λ _. seal_all R P reason is)
          (Post-both (Keeping []) (Leaves R P (i ∷ []) w) (seal_chunk R P i reason w)
            (seal_chunk-still i reason [] w k) (seal_chunk-Leaves R P i reason w))
          (λ a w1 k1.
            seal_all-Sealed reason is j c w1 (ground (arith, k1.1 j, q, e)) (ground (arith, h, q))
              k1.0)
  ]

  open-listed :
      (j : ℕ) (c : OpenChunk R) (w : World R)
      → lookup j w.chunker.open_chunks ≡ some c
      → listed j (keys R P w.chunker.open_chunks) ≡ true
  open-listed j c w e = elim (Bool-cases (listed j (keys R P w.chunker.open_chunks))) [
    | inl q ↦ q
    | inr q ↦
        let gone = lookup-keys R P j w.chunker.open_chunks q in
        let bad : none ≡ some c = sym gone ∙ e in cc
  ]

  Sealed-files :
      (c : OpenChunk R) (w : World R)
      → Sealed c w
      → All
          (λ (e : Ext).
            is_file (stem_path s c.start_slot c.end_slot_exclusive e) w.disk.files ≡ true)
          (zst ∷ idx ∷ meta_json ∷ [])
  Sealed-files c w k = (k.1.1.1.0.1, (k.1.1.0.1, (k.1.0.1, tt)))

-- Whatever calls a new chunker has served, with whatever failures of the disk, once it shuts down
-- without an error no chunk is open, and every chunk that was open has its payload, its index and
-- its sidecar under their final names, if the sidecars that were on the disk at first had theirs
-- beside them.
pub shut_down-is_file :
    (R : Roaring) (P : Packages) (s : Stream) (cfg : WriterConfig) (d : Disk) (calls : List Call)
    (w' : World R) (j : ℕ) (c : OpenChunk R)
    → Trio d.files
    → shut_down R P (serve_all R P calls (record { chunker = new_chunker R s cfg; disk = d }))
      ≡ (ok tt, w')
    → lookup j
        (serve_all R P calls
          (record { chunker = new_chunker R s cfg; disk = d })).chunker.open_chunks
      ≡ some c
    → ((k : ℕ) → lookup k w'.chunker.open_chunks ≡ none)
      × All
          (λ (e : Ext).
            is_file (stem_path s c.start_slot c.end_slot_exclusive e) w'.disk.files ≡ true)
          (zst ∷ idx ∷ meta_json ∷ [])
unfolding new_chunker shut_down
shut_down-is_file R P s cfg d calls w' j c t e here =
    let w = serve_all R P calls (record { chunker = new_chunker R s cfg; disk = d }) in
    let good =
      serve_all-Good R P s calls (record { chunker = new_chunker R s cfg; disk = d })
        (record { stream_same = refl; complete = t; paths = tt }) in
    (
      λ k. shut_down-lookup R P w w' k e,
      Sealed-files R P s c w' (
          Post-ok R P (Sealed R P s c) (shut_down R P w) w' e (
            seal_all-Sealed R P s shutdown (keys R P w.chunker.open_chunks) j c w here
              (open-listed R P s j c w here) (good, tt))),
    )
