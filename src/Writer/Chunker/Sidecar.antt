-- ===== src/Writer/Chunker/Sidecar.antt =====
-- The order in which a chunk's files get their final names: the sidecar comes last
-- (sillage-writer/src/chunker.rs, and docs/format.md, where the sidecar marks a complete chunk).
use mathlib.Core.Bool.{◌&&◌, ◌||◌, not}
use sillage.Prelude.{
  ℕ, ◌≡◌, refl, Bool, true, false, List, [], ◌∷◌, All, insert, remove, lookup-insert, lookup-remove,
  arith,
}
use sillage.Common.Stream.{Stream}
use sillage.Common.Disk.{
  FilePath, Ext, zst, idx, meta_json, Files, path_eq, path_beq, path_beq_iff, is_file, ext_beq,
}

abbrev pub stem_path : Stream → ℕ → ℕ → Ext → FilePath
stem_path s a b e = record { stream = s; start_slot = a; end_slot = b; ext = e; partial = false }

abbrev pub is_sidecar : FilePath → Bool
is_sidecar p = ext_beq p.ext meta_json && not p.partial

-- A sidecar under its final name stands beside its payload and its index.
pub record Trio (m : Files) : Type 0 where
  pub with_payload :
      (s : Stream) (a b : ℕ)
      → is_file (stem_path s a b meta_json) m ≡ true
      → is_file (stem_path s a b zst) m ≡ true
  pub with_index :
      (s : Stream) (a b : ℕ)
      → is_file (stem_path s a b meta_json) m ≡ true
      → is_file (stem_path s a b idx) m ≡ true

pub is_file-insert :
    (p q : FilePath) (bs : List ℕ) (m : Files)
    → is_file q (insert p bs m) ≡ (path_beq p q || is_file q m)
is_file-insert p q bs m = ground (arith, lookup-insert p q bs m)

pub is_file-remove :
    (p q : FilePath) (m : Files) → is_file q (remove p m) ≡ (not (path_beq p q) && is_file q m)
is_file-remove p q m = ground (arith, lookup-remove p q m)

Trio-insert :
    (p : FilePath) (bs : List ℕ) (m : Files) → is_sidecar p ≡ false → Trio m → Trio (insert p bs m)
Trio-insert p bs m other t = record {
  with_payload = λ s a b h. ground (
    arith,
    is_file-insert p (stem_path s a b meta_json) bs m,
    is_file-insert p (stem_path s a b zst) bs m,
    path_beq_iff p (stem_path s a b meta_json),
    t.with_payload s a b,
  );
  with_index = λ s a b h. ground (
    arith,
    is_file-insert p (stem_path s a b meta_json) bs m,
    is_file-insert p (stem_path s a b idx) bs m,
    path_beq_iff p (stem_path s a b meta_json),
    t.with_index s a b,
  );
}

path_beq-partial : (p q : FilePath) → p.partial ≡ true → q.partial ≡ false → path_beq p q ≡ false
path_beq-partial p q h g = ground (arith, path_beq_iff p q)

Trio-remove : (p : FilePath) (m : Files) → p.partial ≡ true → Trio m → Trio (remove p m)
Trio-remove p m h t = record {
  with_payload = λ s a b g. ground (
    arith,
    is_file-remove p (stem_path s a b meta_json) m,
    is_file-remove p (stem_path s a b zst) m,
    path_beq-partial p (stem_path s a b zst) h refl,
    t.with_payload s a b,
  );
  with_index = λ s a b g. ground (
    arith,
    is_file-remove p (stem_path s a b meta_json) m,
    is_file-remove p (stem_path s a b idx) m,
    path_beq-partial p (stem_path s a b idx) h refl,
    t.with_index s a b,
  );
}

-- A sidecar may take its final name once its payload and its index have theirs.
Trio-sidecar :
    (s : Stream) (a b : ℕ) (bs : List ℕ) (m : Files)
    → is_file (stem_path s a b zst) m ≡ true
    → is_file (stem_path s a b idx) m ≡ true
    → Trio m
    → Trio (insert (stem_path s a b meta_json) bs m)
Trio-sidecar s a b bs m payload index t = record {
  with_payload = λ s' a' b' h. ground (
    arith,
    is_file-insert (stem_path s a b meta_json) (stem_path s' a' b' meta_json) bs m,
    is_file-insert (stem_path s a b meta_json) (stem_path s' a' b' zst) bs m,
    path_beq_iff (stem_path s a b meta_json) (stem_path s' a' b' meta_json),
    path_beq_iff (stem_path s a b zst) (stem_path s' a' b' zst),
    t.with_payload s' a' b',
  );
  with_index = λ s' a' b' h. ground (
    arith,
    is_file-insert (stem_path s a b meta_json) (stem_path s' a' b' meta_json) bs m,
    is_file-insert (stem_path s a b meta_json) (stem_path s' a' b' idx) bs m,
    path_beq_iff (stem_path s a b meta_json) (stem_path s' a' b' meta_json),
    t.with_index s' a' b',
  );
}

-- How far a seal has come: the files that are present under their final names.
abbrev pub Present : List FilePath → Files → Type 0
Present ps m = All (λ p. (p.partial ≡ false) × (is_file p m ≡ true)) ps

abbrev pub Stage : List FilePath → Files → Type 0
Stage ps m = Trio m × Present ps m

Present-insert :
    (p : FilePath) (bs : List ℕ) (m : Files) (ps : List FilePath)
    → Present ps m
    → Present ps (insert p bs m)
Present-insert p bs m [] h = tt
Present-insert p bs m (q ∷ ps) h =
    ((h.0.0, ground (arith, is_file-insert p q bs m, h.0.1)), Present-insert p bs m ps h.1)

Present-remove :
    (p : FilePath) (m : Files) (ps : List FilePath)
    → p.partial ≡ true
    → Present ps m
    → Present ps (remove p m)
Present-remove p m [] g h = tt
Present-remove p m (q ∷ ps) g h = (
  (h.0.0, ground (arith, is_file-remove p q m, path_beq-partial p q g h.0.0, h.0.1)),
  Present-remove p m ps g h.1,
)

pub Stage-insert :
    (ps : List FilePath) (p : FilePath) (bs : List ℕ) (m : Files)
    → is_sidecar p ≡ false
    → Stage ps m
    → Stage ps (insert p bs m)
Stage-insert ps p bs m h st = (Trio-insert p bs m h st.0, Present-insert p bs m ps st.1)

-- A partial file takes a final name that is not a sidecar's.
pub Stage-move :
    (ps : List FilePath) (p q : FilePath) (bs : List ℕ) (m : Files)
    → p.partial ≡ true
    → q.partial ≡ false
    → is_sidecar q ≡ false
    → Stage ps m
    → Stage (q ∷ ps) (insert q bs (remove p m))
Stage-move ps p q bs m g final h st = (
  Trio-insert q bs (remove p m) h (Trio-remove p m g st.0),
  (
    (final, ground (arith, is_file-insert q q bs (remove p m), path_beq_iff q q)),
    Present-insert q bs (remove p m) ps (Present-remove p m ps g st.1),
  ),
)

-- The three files of a chunk, as a seal gives them their final names.
abbrev pub sealed_files : Stream → ℕ → ℕ → List FilePath → List FilePath
sealed_files s a b ps = stem_path s a b meta_json ∷ stem_path s a b idx ∷ stem_path s a b zst ∷ ps

pub Stage-finish :
    (ps : List FilePath) (s : Stream) (a b : ℕ) (p : FilePath) (bs : List ℕ) (m : Files)
    → p.partial ≡ true
    → Stage (stem_path s a b idx ∷ stem_path s a b zst ∷ ps) m
    → Stage (sealed_files s a b ps) (insert (stem_path s a b meta_json) bs (remove p m))
Stage-finish ps s a b p bs m g st =
    let q = stem_path s a b meta_json in
    let kept = Present-remove p m (stem_path s a b idx ∷ stem_path s a b zst ∷ ps) g st.1 in
    (
      Trio-sidecar s a b bs (remove p m) kept.1.0.1 kept.0.1 (Trio-remove p m g st.0),
      (
        (refl, ground (arith, is_file-insert q q bs (remove p m), path_beq_iff q q)),
        Present-insert q bs (remove p m) (stem_path s a b idx ∷ stem_path s a b zst ∷ ps) kept,
      ),
    )
