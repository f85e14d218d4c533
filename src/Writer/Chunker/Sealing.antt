-- ===== src/Writer/Chunker/Sealing.antt =====
-- Which chunks are open after a call that succeeds (sillage-writer/src/chunker.rs).
use sillage.Prelude.{
  ℕ, ◌/◌, ◌≡◌, refl, ap, subst, none, some, Bool, true, false, List, [], ◌∷◌, Result, ok, err,
  lookup, remove, lookup-remove, arith, Option-cases, Bool-cases, inl, inr, ltb, leb, eqb, eqb_iff,
  anyb, filterb, add64, nat_eq, if◌then◌else◌,
}
use sillage.Common.Roaring.{Roaring}
use sillage.Common.Packages.{Packages}
use sillage.Common.Disk.{Disk}
use sillage.Common.Disk.Runs.{Post, Post-and_then, Runs-bind}
use sillage.Writer.Chunker.{
  OpenChunk, Chunker, World, Stamped, ChunkerError, SealedReason, watermark, shutdown, seal_files,
  seal_chunk, seal_all, keys, seal_passed, ensure_open, append_open, ingest_at, raise_watermark,
  ingest, shut_down, seal_lookahead_chunks,
}

-- Is the number in the list?
abbrev pub listed : ℕ → List ℕ → Bool
listed j is = anyb (λ i. eqb i j) is

listed-filterb :
    (p : ℕ → Bool) (j : ℕ) (is : List ℕ)
    → listed j is ≡ true
    → p j ≡ true
    → listed j (filterb p is) ≡ true
listed-filterb p j [] h g = h
listed-filterb p j (i ∷ is) h g = ground (arith, listed-filterb p j is, eqb_iff i j)

module _ (R : Roaring) (P : Packages) where
  abbrev Chunks : Type 0
  Chunks = List (ℕ × OpenChunk R)

  pub lookup-keys : (j : ℕ) (m : Chunks) → listed j (keys R P m) ≡ false → lookup j m ≡ none
  unfolding lookup
  lookup-keys j [] h = refl
  lookup-keys j ((i, c) ∷ m) h = ground (arith, lookup-keys j m)

  -- What is left open when the listed chunks are sealed.
  abbrev pub Leaves : List ℕ → World R → World R → Type 0
  Leaves is w w' =
      (j : ℕ)
      → lookup j w'.chunker.open_chunks
        ≡ (if listed j is then none else lookup j w.chunker.open_chunks)

  abbrev pub Any : World R → Type 0
  Any w = Unit {0}

  Post-map :
      (Q Q' : World R → Type 0) (x : Result ChunkerError (Unit {0}) × World R)
      → ((w : World R) → Q w → Q' w)
      → Post Any (λ _. Q) x
      → Post Any (λ _. Q') x
  Post-map Q Q' (ok a, w) k h = k w h
  Post-map Q Q' (err f, w) k h = tt

  on_disk-Leaves :
      (i : ℕ) (c : Chunker R) (w : World R) (x : Result ChunkerError (Unit {0}) × Disk)
      → ((j : ℕ)
          → lookup j c.open_chunks
            ≡ (if listed j (i ∷ []) then none else lookup j w.chunker.open_chunks))
      → Post Any (λ _. Leaves (i ∷ []) w) (x.0, record { chunker = c; disk = x.1 })
  on_disk-Leaves i c w (ok a, d) h = h
  on_disk-Leaves i c w (err e, d) h = tt

  pub seal_chunk-Leaves :
      (i : ℕ) (reason : SealedReason) (w : World R)
      → Post Any (λ _. Leaves (i ∷ []) w) (seal_chunk R P i reason w)
  unfolding seal_chunk
  seal_chunk-Leaves i reason w = elim (Option-cases (lookup i w.chunker.open_chunks)) [
    | inl e ↦ rw (e, seal_chunk) tt
    | inr (c, e) ↦
        rw (e, seal_chunk)
          (on_disk-Leaves i (record (w.chunker) { open_chunks = remove i w.chunker.open_chunks }) w
            (seal_files R P w.chunker.stream c reason w.disk)
            (λ j. ground (arith, lookup-remove i j w.chunker.open_chunks)))
  ]

  seal_all-Leaves :
      (reason : SealedReason) (is : List ℕ) (w : World R)
      → Post Any (λ _. Leaves is w) (seal_all R P reason is w)
  unfolding seal_all
  seal_all-Leaves reason [] w = λ j. refl
  seal_all-Leaves reason (i ∷ is) w =
      Post-and_then Any (λ _. Leaves (i ∷ []) w) (λ _. Leaves (i ∷ is) w)
        (seal_chunk R P i reason w) (λ _. seal_all R P reason is) (seal_chunk-Leaves i reason w)
        (λ a w1 first.
          Post-map (Leaves is w1) (Leaves (i ∷ is) w) (seal_all R P reason is w1)
            (λ w2 rest j. ground (arith, first j, rest j)) (seal_all-Leaves reason is w1))

  Closed : (ℕ → Bool) → World R → Type 0
  Closed p w = (j : ℕ) → p j ≡ true → lookup j w.chunker.open_chunks ≡ none

  seal_keys-Closed :
      (reason : SealedReason) (p : ℕ → Bool) (w : World R)
      → Post Any
          (λ _. Closed p)
          (seal_all R P reason (filterb p (keys R P w.chunker.open_chunks)) w)
  unfolding Closed
  seal_keys-Closed reason p w =
      Post-map (Leaves (filterb p (keys R P w.chunker.open_chunks)) w) (Closed p)
        (seal_all R P reason (filterb p (keys R P w.chunker.open_chunks)) w)
        (λ w' leaves j h. elim (Bool-cases (listed j (keys R P w.chunker.open_chunks))) [
          | inl q ↦
              let sealed = listed-filterb p j (keys R P w.chunker.open_chunks) q h in
              ground (arith, sealed, leaves j)
          | inr q ↦ ground (arith, leaves j, lookup-keys j w.chunker.open_chunks q)
        ])
        (seal_all-Leaves reason (filterb p (keys R P w.chunker.open_chunks)) w)

  filterb-true : (is : List ℕ) → filterb (λ i. true) is ≡ is
  filterb-true [] = refl
  filterb-true (i ∷ is) = ap (λ t. i ∷ t) (filterb-true is)

  pub Post-ok :
      (Q : World R → Type 0) (x : Result ChunkerError (Unit {0}) × World R) (w : World R)
      → x ≡ (ok tt, w)
      → Post Any (λ _. Q) x
      → Q w
  Post-ok Q x w e h = subst (Post Any (λ _. Q)) e h

  -- After a shutdown that succeeds no chunk is open.
  pub shut_down-lookup :
      (w w' : World R) (j : ℕ)
      → shut_down R P w ≡ (ok tt, w')
      → lookup j w'.chunker.open_chunks ≡ none
  unfolding shut_down Closed
  shut_down-lookup w w' j e =
      Post-ok (Closed (λ i. true)) (shut_down R P w) w' e
        (subst (λ is. Post Any (λ _. Closed (λ i. true)) (seal_all R P shutdown is w))
          (filterb-true (keys R P w.chunker.open_chunks)) (seal_keys-Closed shutdown (λ i. true) w))
        j refl

  Post-Any : (x : Result ChunkerError (Unit {0}) × World R) → Post Any (λ _. Any) x
  Post-Any (ok a, w) = tt
  Post-Any (err f, w) = tt

  ingest_at-Closed :
      (now : ℕ) (msg : Stamped) (slot mark : ℕ) (w : World R)
      → eqb w.chunker.cfg.slots_per_chunk 0 ≡ false
      → ltb (add64 slot w.chunker.cfg.out_of_order_tolerance_slots) mark ≡ false
      → Post Any
          (λ _.
            Closed
              (λ i. leb (add64 i seal_lookahead_chunks) (mark / w.chunker.cfg.slots_per_chunk)))
          (ingest_at R P now msg slot mark w)
  unfolding ingest_at seal_passed
  ingest_at-Closed now msg slot mark w spc late =
      let i = slot / w.chunker.cfg.slots_per_chunk in
      let behind : ℕ → Bool =
        λ k. leb (add64 k seal_lookahead_chunks) (mark / w.chunker.cfg.slots_per_chunk) in
      rw (ingest_at, spc, late)
        (Runs-bind Any (λ _. Any) (λ _. Closed behind) Any (ensure_open R P i now) _
          (λ w1 h. Post-Any (ensure_open R P i now w1))
          (λ a.
            Runs-bind Any (λ _. Any) (λ _. Closed behind) Any (append_open R P now msg slot i) _
              (λ w1 h. Post-Any (append_open R P now msg slot i w1))
              (λ b w1 h. seal_keys-Closed watermark behind w1))
          w tt)

  -- With a positive number of slots in a chunk, a message that is not late, once ingested without
  -- an error, leaves no chunk open that is two or more ranges behind the range of the watermark.
  pub ingest-lookup :
      (now : ℕ) (msg : Stamped) (slot : ℕ) (w w' : World R) (j : ℕ)
      → eqb w.chunker.cfg.slots_per_chunk 0 ≡ false
      → ltb
          (add64 slot w.chunker.cfg.out_of_order_tolerance_slots)
          (raise_watermark R P w.chunker.watermark_slot slot)
        ≡ false
      → ingest R P now msg slot w ≡ (ok tt, w')
      → leb
          (add64 j seal_lookahead_chunks)
          (raise_watermark R P w.chunker.watermark_slot slot / w.chunker.cfg.slots_per_chunk)
        ≡ true
      → lookup j w'.chunker.open_chunks ≡ none
  unfolding ingest ingest_at seal_passed Closed
  ingest-lookup now msg slot w w' j spc late e behind =
      let mark = raise_watermark R P w.chunker.watermark_slot slot in
      Post-ok
        (Closed (λ i. leb (add64 i seal_lookahead_chunks) (mark / w.chunker.cfg.slots_per_chunk)))
        (ingest R P now msg slot w) w' e
        (ingest_at-Closed now msg slot mark
          (record w { chunker = record (w.chunker) { watermark_slot = some mark } }) spc late)
        j behind
