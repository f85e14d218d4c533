-- ===== src/Writer/Chunker/Keeps.antt =====
-- Every operation of the chunker, with failures at any of its operations on the disk, keeps the
-- files of complete chunks together and the paths of its open chunks
-- (sillage-writer/src/chunker.rs).
use sillage.Prelude.{
  ℕ, ◌/◌, ◌≡◌, refl, some, false, List, [], ◌∷◌, All, Result, ok, err, lookup, insert, remove,
  All-lookup, All-remove, All-insert_sorted, contains_key, Option-cases, Bool-cases, List-cases,
  inl, inr, ltb, leb, eqb, ◌==◌, length, filterb, add64, mul64, zero, suc, ◌||◌, subst, sym, nat_eq,
  nat_ord,
}
use sillage.Common.Stream.{Stream}
use sillage.Common.Roaring.{Roaring}
use sillage.Common.Packages.{Packages}
use sillage.Common.Disk.{path_eq, Disk, M, ◌>>=◌, attempt, create, is_file}
use sillage.Common.Disk.Runs.{Post, Runs, Runs-bind, Runs-weaken, attempt-Runs}
use sillage.Writer.Chunker.{
  OpenChunk, Chunker, World, Stamped, ChunkerError, io, SealedReason, cap_reached, watermark,
  shutdown, on_disk, append, appended, seal_files, seal_chunk, chunk_path, fresh_chunk, insert_open,
  start_chunk, open_chunk, make_room, ensure_open, append_open, seal_all, keys, seal_passed,
  ingest_at, raise_watermark, ingest, tick, shut_down, seal_lookahead_chunks,
}
use sillage.Writer.Chunker.Sidecar.{is_sidecar, Trio, Stage-insert}
use sillage.Writer.Chunker.Seal.{HasPaths, seal_files-Runs}

module _ (R : Roaring) (P : Packages) (s : Stream) where
  abbrev Chunks : Type 0
  Chunks = List (ℕ × OpenChunk R)

  abbrev pub AllPaths : Chunks → Type 0
  AllPaths m = All (λ (p : ℕ × OpenChunk R). HasPaths R P s p.1) m

  -- What holds between two operations.
  pub record Good (w : World R) : Type 0 where
    pub stream_same : w.chunker.stream ≡ s
    pub complete : Trio w.disk.files
    pub paths : AllPaths w.chunker.open_chunks

  abbrev pub Keeps : M (World R) ChunkerError (Unit {0}) → Type 0
  Keeps m = Runs Good Good m (λ _. Good)

  bind-Keeps :
      (m : M (World R) ChunkerError (Unit {0})) (f : Unit {0} → M (World R) ChunkerError (Unit {0}))
      → Keeps m
      → ((a : Unit {0}) → Keeps (f a))
      → Keeps (m >>= f)
  bind-Keeps m f h k = Runs-bind Good (λ _. Good) (λ _. Good) Good m f h k

  on_disk-Post :
      {A : Type 0} (Q : A → Type 0) (c : Chunker R) (x : Result ChunkerError A × Disk)
      → c.stream ≡ s
      → AllPaths c.open_chunks
      → Post (λ d. Trio d.files) (λ a d. Trio d.files × Q a) x
      → Post Good (λ a w. Good w × Q a) (x.0, record { chunker = c; disk = x.1 })
  on_disk-Post Q c (ok a, d) same paths t =
      (record { stream_same = same; complete = t.0; paths = paths }, t.1)
  on_disk-Post Q c (err e, d) same paths t = record {
    stream_same = same;
    complete = t;
    paths = paths;
  }

  -- A run on the disk keeps the world good, and what it yields meets `Q`.
  on_disk-Runs :
      {A : Type 0} (Q : A → Type 0) (m : M Disk ChunkerError A)
      → Runs (λ d. Trio d.files) (λ d. Trio d.files) m (λ a d. Trio d.files × Q a)
      → Runs Good Good (on_disk R m) (λ a w. Good w × Q a)
  on_disk-Runs Q m h w good =
      on_disk-Post Q w.chunker (m w.disk) good.stream_same good.paths (h w.disk good.complete)

  on_disk-Keeps :
      (m : M Disk ChunkerError (Unit {0}))
      → Runs (λ d. Trio d.files) (λ d. Trio d.files) m (λ _ d. Trio d.files)
      → Keeps (on_disk R m)
  on_disk-Keeps m h =
      Runs-weaken Good Good (λ _. Good) (λ _ w. Good w × Unit {0}) (on_disk R m) (λ w g. g)
        (λ _ w g. g.0)
        (on_disk-Runs (λ _. Unit {0}) m
          (Runs-weaken (λ d. Trio d.files) (λ d. Trio d.files) (λ _ d. Trio d.files × Unit {0})
            (λ _ d. Trio d.files) m (λ d t. t) (λ _ d t. (t, tt)) h))

  seal_chunk-Keeps : (i : ℕ) (reason : SealedReason) → Keeps (seal_chunk R P i reason)
  unfolding seal_chunk
  seal_chunk-Keeps i reason w good = elim (Option-cases (lookup i w.chunker.open_chunks)) [
    | inl e ↦ rw (e, seal_chunk) good
    | inr (c, e) ↦
        rw (e, seal_chunk)
          (on_disk-Keeps (seal_files R P w.chunker.stream c reason)
            (seal_files-Runs R P s c
              (All-lookup (λ p. HasPaths R P s p.1) i c w.chunker.open_chunks good.paths e)
              w.chunker.stream reason)
            (record w {
              chunker = record (w.chunker) { open_chunks = remove i w.chunker.open_chunks };
            })
            (record {
              stream_same = good.stream_same;
              complete = good.complete;
              paths = All-remove (λ p. HasPaths R P s p.1) i w.chunker.open_chunks good.paths;
            }))
  ]

  seal_all-Keeps : (reason : SealedReason) (is : List ℕ) → Keeps (seal_all R P reason is)
  unfolding seal_all
  seal_all-Keeps reason [] w good = good
  seal_all-Keeps reason (i ∷ is) w good =
      bind-Keeps (seal_chunk R P i reason) (λ _. seal_all R P reason is) (seal_chunk-Keeps i reason)
        (λ _. seal_all-Keeps reason is) w good

  insert_open-Good :
      (i : ℕ) (c : OpenChunk R) (w : World R)
      → HasPaths R P s c
      → Good w
      → Good (insert_open R P i c w)
  unfolding insert_open
  insert_open-Good i c w h good = record {
    stream_same = good.stream_same;
    complete = good.complete;
    paths = All-insert_sorted (λ p. HasPaths R P s p.1) i c w.chunker.open_chunks good.paths h;
  }

  fresh_chunk-HasPaths : (a b now : ℕ) → HasPaths R P s (fresh_chunk R P s a b now)
  unfolding fresh_chunk
  fresh_chunk-HasPaths a b now = record {
    partial_zst_path = refl;
    partial_meta_path = refl;
    partial_idx_path = refl;
    final_zst_path = refl;
    final_meta_path = refl;
    final_idx_path = refl;
  }

  appended-HasPaths :
      (now : ℕ) (msg : Stamped) (slot : ℕ) (written : List ℕ) (c : OpenChunk R)
      → HasPaths R P s c
      → HasPaths R P s (appended R P now msg slot written c)
  unfolding appended
  appended-HasPaths now msg slot written c h = record {
    partial_zst_path = h.partial_zst_path;
    partial_meta_path = h.partial_meta_path;
    partial_idx_path = h.partial_idx_path;
    final_zst_path = h.final_zst_path;
    final_meta_path = h.final_meta_path;
    final_idx_path = h.final_idx_path;
  }

  append-Runs :
      (now : ℕ) (msg : Stamped) (slot : ℕ) (c : OpenChunk R)
      → HasPaths R P s c
      → Runs
          (λ d. Trio d.files)
          (λ d. Trio d.files)
          (append R P now msg slot c)
          (λ c' d. Trio d.files × HasPaths R P s c')
  unfolding append
  append-Runs now msg slot c h d t = elim (Option-cases c.encoder) [
    | inl e ↦ rw (append, e) t
    | inr (written, e) ↦
        rw (append, e)
          (Runs-bind (λ d. Trio d.files) (λ _ d. Trio d.files)
            (λ c' d. Trio d.files × HasPaths R P s c') (λ d. Trio d.files) (attempt io (λ m. m)) _
            (attempt-Runs io Trio Trio Trio (λ m t. t) (λ m. m) (λ m t. t))
            (λ _ d t. (t, appended-HasPaths now msg slot written c h)) d t)
  ]

  append_open-Keeps :
      (now : ℕ) (msg : Stamped) (slot i : ℕ) → Keeps (append_open R P now msg slot i)
  unfolding append_open
  append_open-Keeps now msg slot i w good = elim (Option-cases (lookup i w.chunker.open_chunks)) [
    | inl e ↦ rw (append_open, e) good
    | inr (c, e) ↦
        rw (append_open, e)
          (Runs-bind Good (λ c' w. Good w × HasPaths R P s c') (λ _. Good) Good
            (on_disk R (append R P now msg slot c)) _
            (on_disk-Runs (HasPaths R P s) (append R P now msg slot c) (
              append-Runs now msg slot c
                (All-lookup (λ p. HasPaths R P s p.1) i c w.chunker.open_chunks good.paths e)))
            (λ c' w' g. insert_open-Good i c' w' g.1 g.0) w good)
  ]

  insert_open-Keeps :
      (i : ℕ) (c : OpenChunk R) → HasPaths R P s c → Keeps (λ w. (ok tt, insert_open R P i c w))
  insert_open-Keeps i c h w good = insert_open-Good i c w h good

  start_chunk-Keeps :
      (i : ℕ) (c : OpenChunk R)
      → HasPaths R P s c
      → is_sidecar c.partial_zst ≡ false
      → Keeps (start_chunk R P i c)
  unfolding start_chunk
  start_chunk-Keeps i c h other =
      bind-Keeps (on_disk R (create io c.partial_zst)) _
        (on_disk-Keeps (create io c.partial_zst) (
          attempt-Runs io Trio Trio Trio (λ m t. t) (insert c.partial_zst [])
            (λ m t. (Stage-insert [] c.partial_zst [] m other (t, tt)).0)))
        (λ _.
          bind-Keeps (on_disk R (attempt io (λ m. m))) _
            (on_disk-Keeps (attempt io (λ m. m))
              (attempt-Runs io Trio Trio Trio (λ m t. t) (λ m. m) (λ m t. t)))
            (λ _. insert_open-Keeps i c h))

  start_fresh-Keeps : (i a b now : ℕ) → Keeps (start_chunk R P i (fresh_chunk R P s a b now))
  unfolding fresh_chunk chunk_path
  start_fresh-Keeps i a b now =
      start_chunk-Keeps i (fresh_chunk R P s a b now) (fresh_chunk-HasPaths a b now) refl

  open_chunk-Keeps : (i now : ℕ) → Keeps (open_chunk R P i now)
  unfolding open_chunk
  open_chunk-Keeps i now w good =
      let spc = w.chunker.cfg.slots_per_chunk in
      let start = mul64 i spc in
      let c = fresh_chunk R P w.chunker.stream start (add64 start spc) now in
      elim (Bool-cases (contains_key i w.chunker.open_chunks)) [
        | inl e ↦ rw (open_chunk, e) good
        | inr e ↦
            elim (Bool-cases
              (is_file c.final_zst w.disk.files || is_file c.final_meta w.disk.files)) [
                | inl e' ↦ rw (open_chunk, e, e') good
                | inr e' ↦
                    rw (open_chunk, e, e')
                      (subst
                        (λ t.
                          Post Good (λ _. Good)
                            (start_chunk R P i (fresh_chunk R P t start (add64 start spc) now) w))
                        (sym good.stream_same)
                        (start_fresh-Keeps i start (add64 start spc) now w good))
              ]
      ]

  seal_passed-Keeps : (mark : ℕ) → Keeps (seal_passed R P mark)
  unfolding seal_passed
  seal_passed-Keeps mark w good =
      seal_all-Keeps watermark
        (filterb (λ i. leb (add64 i seal_lookahead_chunks) mark) (keys R P w.chunker.open_chunks)) w
        good

  pub tick-Keeps : (now : ℕ) → Keeps (tick R P now)
  unfolding tick
  tick-Keeps now w good = seal_all-Keeps shutdown _ w good

  pub shut_down-Keeps : Keeps (shut_down R P)
  unfolding shut_down
  shut_down-Keeps w good = seal_all-Keeps shutdown (keys R P w.chunker.open_chunks) w good

  make_room-Keeps : (fuel i : ℕ) → Keeps (make_room R P fuel i)
  unfolding make_room
  make_room-Keeps zero i w good = good
  make_room-Keeps (suc fuel) i w good =
      elim (Bool-cases (ltb (length w.chunker.open_chunks) w.chunker.cfg.max_open_chunks)) [
        | inl e ↦ rw (make_room, e) good
        | inr e ↦ elim (List-cases w.chunker.open_chunks) [
          | inl e' ↦ rw (make_room, e, e') good
          | inr ((oldest, c), (rest, e')) ↦ elim (Bool-cases (oldest == i)) [
            | inl q ↦ rw (make_room, e, e', q) good
            | inr q ↦
                rw (make_room, e, e', q)
                  (bind-Keeps (seal_chunk R P oldest cap_reached) (λ _. make_room R P fuel i)
                    (seal_chunk-Keeps oldest cap_reached) (λ _. make_room-Keeps fuel i) w good)
          ]
        ]
      ]

  ensure_open-Keeps : (i now : ℕ) → Keeps (ensure_open R P i now)
  unfolding ensure_open
  ensure_open-Keeps i now w good = elim (Bool-cases (contains_key i w.chunker.open_chunks)) [
    | inl e ↦ rw (ensure_open, e) good
    | inr e ↦
        rw (ensure_open, e)
          (bind-Keeps (make_room R P (suc (length w.chunker.open_chunks)) i)
            (λ _. open_chunk R P i now) (make_room-Keeps (suc (length w.chunker.open_chunks)) i)
            (λ _. open_chunk-Keeps i now) w good)
  ]

  ingest_at-Keeps :
      (now : ℕ) (msg : Stamped) (slot mark : ℕ) → Keeps (ingest_at R P now msg slot mark)
  unfolding ingest_at
  ingest_at-Keeps now msg slot mark w good =
      let spc = w.chunker.cfg.slots_per_chunk in
      elim (Bool-cases (eqb spc 0)) [
        | inl e ↦ rw (ingest_at, e) good
        | inr e ↦
            elim (Bool-cases (ltb (add64 slot w.chunker.cfg.out_of_order_tolerance_slots) mark)) [
              | inl e' ↦ rw (ingest_at, e, e') good
              | inr e' ↦
                  rw (ingest_at, e, e')
                    (bind-Keeps (ensure_open R P (slot / spc) now) _
                      (ensure_open-Keeps (slot / spc) now)
                      (λ _.
                        bind-Keeps (append_open R P now msg slot (slot / spc)) _
                          (append_open-Keeps now msg slot (slot / spc))
                          (λ _. seal_passed-Keeps (mark / spc)))
                      w good)
            ]
      ]

  pub ingest-Keeps : (now : ℕ) (msg : Stamped) (slot : ℕ) → Keeps (ingest R P now msg slot)
  unfolding ingest
  ingest-Keeps now msg slot w good =
      ingest_at-Keeps now msg slot (raise_watermark R P w.chunker.watermark_slot slot)
        (record w {
          chunker = record (w.chunker) {
            watermark_slot = some (raise_watermark R P w.chunker.watermark_slot slot);
          };
        })
        (record { stream_same = good.stream_same; complete = good.complete; paths = good.paths })
