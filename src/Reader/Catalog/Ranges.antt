-- ===== src/Reader/Catalog/Ranges.antt =====
-- What a scan finds, and what a range of slots selects from it (sillage-reader/src/storage.rs).
use sillage.Prelude.{
  true, eqb_iff, ℕ, ◌≡◌, refl, ap, ◌∙◌, Option, none, some, Bool, false, ◌&&◌, List, [], ◌∷◌, map,
  ltb, eqb, nat_eq, nat_ord, if◌then◌else◌, filterb, lookup, insert_sorted, lookup-insert_sorted,
  Ascending, Above, Ascending-insert_sorted, arith, Option-cases, Bool-cases, inl, inr,
}
use sillage.Common.Stream.{Stream, tx, acct, block, stream_beq, stream_beq_iff, stream_eq}
use sillage.Common.Packages.{Packages}
use sillage.Common.Chunk.{ChunkMeta}
use sillage.Common.Disk.{
  FilePath, Files, Ext, zst, idx, meta_json, path_beq, path_beq_iff, path_eq, is_file,
}
use sillage.Writer.Chunker.Sidecar.{stem_path}
use sillage.Reader.Catalog.{
  ChunkEntry, ChunkCatalog, Tree, read_entry, scan_dir, scan_streams, scan, range_to, tree_of,
  chunks_in_range, get_chunk, sibling, file_len,
}

abbrev pub overlaps : ℕ → ℕ → ℕ × ChunkEntry → Bool
overlaps from_slot to_slot p = ltb p.0 to_slot && ltb from_slot p.1.end_slot_exclusive

none_below :
    (from_slot to_slot k : ℕ) (t : Tree)
    → Above k t
    → ltb k to_slot ≡ false
    → filterb (overlaps from_slot to_slot) t ≡ []
none_below from_slot to_slot k [] a h = refl
none_below from_slot to_slot k ((j, e) ∷ t) a h =
    ground (arith, none_below from_slot to_slot k t a.1 h)

pub range_to-overlaps :
    (from_slot to_slot : ℕ) (t : Tree)
    → Ascending t
    → filterb (λ (p : ℕ × ChunkEntry). ltb from_slot p.1.end_slot_exclusive) (range_to to_slot t)
      ≡ filterb (overlaps from_slot to_slot) t
unfolding range_to
range_to-overlaps from_slot to_slot [] a = refl
range_to-overlaps from_slot to_slot ((k, e) ∷ t) a =
    ground (arith, range_to-overlaps from_slot to_slot t a.1, none_below from_slot to_slot k t a.0)

module _ (P : Packages) (files : Files) where
  scan_dir-Ascending :
      (s : Stream) (l : Files) (t : Tree) → Ascending t → Ascending (scan_dir P s files l t)
  unfolding scan_dir
  scan_dir-Ascending s [] t a = a
  scan_dir-Ascending s ((p, bs) ∷ l) t a = elim (Bool-cases (stream_beq p.stream s)) [
    | inr q ↦ rw (scan_dir, q) (scan_dir-Ascending s l t a)
    | inl q ↦ elim (Option-cases (read_entry P files p bs)) [
      | inl r ↦ rw (scan_dir, q, r) (scan_dir-Ascending s l t a)
      | inr (e, r) ↦
          rw (scan_dir, q, r)
            (scan_dir-Ascending s l (insert_sorted e.start_slot e t)
              (Ascending-insert_sorted e.start_slot e t a))
    ]
  ]

  -- The streams' trees beside each other.
  tree_of-cons :
      (s t : Stream) (d : Tree) (rest : ChunkCatalog)
      → tree_of (elim d [ [] ↦ rest | e ∷ es ↦ (t, e ∷ es) ∷ rest ]) s ≡ (
          if stream_beq t s
          then elim d [ [] ↦ tree_of rest s | e ∷ es ↦ e ∷ es ]
          else tree_of rest s)
  unfolding tree_of lookup
  tree_of-cons s t [] rest = ground arith
  tree_of-cons s t (e ∷ es) rest = ground arith

  abbrev dir : Stream → Tree
  dir s = scan_dir P s files files []

  -- What `scan_streams` makes of the remaining streams.
  abbrev blocks : ChunkCatalog
  blocks = scan_streams P (block ∷ []) files

  abbrev accounts : ChunkCatalog
  accounts = scan_streams P (acct ∷ block ∷ []) files

  tree_of-nil : (s : Stream) → tree_of [] s ≡ []
  unfolding tree_of lookup
  tree_of-nil s = refl

  or_nil : (d t : Tree) → t ≡ [] → elim d [ [] ↦ t | e ∷ es ↦ e ∷ es ] ≡ d
  or_nil [] t h = h
  or_nil (e ∷ es) t h = refl

  tree_of-blocks : (s : Stream) → tree_of blocks s ≡ (if stream_beq block s then dir block else [])
  unfolding scan_streams
  tree_of-blocks s =
      ground (
        arith,
        tree_of-cons s block (dir block) [],
        tree_of-nil s,
        or_nil (dir block) (tree_of [] s),
      )

  tree_of-accounts :
      (s : Stream)
      → tree_of accounts s
        ≡ (if stream_beq acct s then dir acct else if stream_beq block s then dir block else [])
  unfolding scan_streams
  tree_of-accounts s = ground (
    arith,
    tree_of-cons s acct (dir acct) blocks,
    tree_of-blocks s,
    or_nil (dir acct) (tree_of blocks s),
  )

  tree_of-scan : (s : Stream) → tree_of (scan P files) s ≡ dir s
  unfolding scan scan_streams
  tree_of-scan s = ground (
    arith,
    tree_of-cons s tx (dir tx) accounts,
    tree_of-accounts s,
    or_nil (dir tx) (tree_of accounts s),
  )

  abbrev or_else : {A : Type 0} → Option A → Option A → Option A
  or_else none b = b
  or_else (some a) b = some a

  or_else-none : {A : Type 0} (o : Option A) → or_else o none ≡ o
  or_else-none none = refl
  or_else-none (some a) = refl

  -- The last file of the listing that is a chunk of the stream with this first slot.
  last_readable : Stream → ℕ → Files → Option ChunkEntry
  last_readable s start [] = none
  last_readable s start ((p, bs) ∷ l) =
      or_else (last_readable s start l)
        (if stream_beq p.stream s && eqb p.start_slot start then read_entry P files p bs else none)

  read_entry-start :
      (p : FilePath) (bs : List ℕ) (e : ChunkEntry)
      → read_entry P files p bs ≡ some e
      → e.start_slot ≡ p.start_slot
  unfolding read_entry
  read_entry-start p bs e h = ground arith

  lookup-scan_dir :
      (s : Stream) (start : ℕ) (l : Files) (t : Tree)
      → lookup start (scan_dir P s files l t) ≡ or_else (last_readable s start l) (lookup start t)
  unfolding scan_dir last_readable
  lookup-scan_dir s start [] t = refl
  lookup-scan_dir s start ((p, bs) ∷ l) t = elim (Bool-cases (stream_beq p.stream s)) [
    | inr q ↦ ground (arith, q, lookup-scan_dir s start l t)
    | inl q ↦ elim (Option-cases (read_entry P files p bs)) [
      | inl r ↦ ground (arith, q, r, lookup-scan_dir s start l t)
      | inr (e, r) ↦ ground (
        arith,
        q,
        r,
        read_entry-start p bs e r,
        lookup-scan_dir s start l (insert_sorted e.start_slot e t),
        lookup-insert_sorted e.start_slot start e t,
      )
    ]
  ]

  -- The entry of a chunk of these slots, whose sidecar says `meta`, if it is of version 1.
  abbrev pub entry_of : Stream → ℕ → ℕ → Option ChunkMeta → Option ChunkEntry
  entry_of s start end none = none
  entry_of s start end (some meta) =
      if eqb meta.schema_version 1
      then some (record {
        stream = s;
        start_slot = start;
        end_slot_exclusive = end;
        zst_len = file_len (stem_path s start end zst) files;
        meta = meta;
      })
      else none

  -- A file stands for a chunk where it is a sidecar under its final name and the payload and the
  -- index stand beside it under theirs.
  abbrev pub complete : Stream → ℕ → FilePath → Bool
  complete s start p =
      path_beq p (stem_path s start p.end_slot meta_json)
      && (is_file (stem_path s start p.end_slot zst) files
          && is_file (stem_path s start p.end_slot idx) files)

  pub last_complete : Stream → ℕ → Files → Option ChunkEntry
  last_complete s start [] = none
  last_complete s start ((p, bs) ∷ l) =
      or_else (last_complete s start l)
        (if complete s start p then entry_of s start p.end_slot (P.from_json bs) else none)

  sibling-stem :
      (s : Stream) (start : ℕ) (p : FilePath) (e : Ext)
      → stream_beq p.stream s ≡ true
      → eqb p.start_slot start ≡ true
      → p.partial ≡ false
      → sibling p e ≡ stem_path s start p.end_slot e
  sibling-stem s start p e h g k =
      ground (arith, stream_beq_iff p.stream s, h, eqb_iff p.start_slot start, g)

  read_entry-complete :
      (s : Stream) (start : ℕ) (p : FilePath) (bs : List ℕ)
      → (if stream_beq p.stream s && eqb p.start_slot start then read_entry P files p bs else none)
        ≡ (if complete s start p then entry_of s start p.end_slot (P.from_json bs) else none)
  unfolding read_entry
  read_entry-complete s start p bs =
      elim (Bool-cases (path_beq p (stem_path s start p.end_slot meta_json))) [
        | inr q ↦ ground (
          arith,
          q,
          stream_beq_iff p.stream s,
          eqb_iff p.start_slot start,
          path_beq_iff p (stem_path s start p.end_slot meta_json),
        )
        | inl q ↦
            let same = (path_beq_iff p (stem_path s start p.end_slot meta_json)).0 q in
            let at : stream_beq p.stream s ≡ true =
              ground (arith, same, stream_beq_iff p.stream s) in
            let first : eqb p.start_slot start ≡ true =
              ground (arith, same, eqb_iff p.start_slot start) in
            let final : p.partial ≡ false = ground (arith, same) in
            let sidecar : p.ext ≡ meta_json = ground (arith, same) in
            ground (
              arith,
              q,
              at,
              first,
              final,
              sidecar,
              stream_beq_iff p.stream s,
              eqb_iff p.start_slot start,
              sibling-stem s start p zst at first final,
              sibling-stem s start p idx at first final,
            )
      ]

  last_readable-last_complete :
      (s : Stream) (start : ℕ) (l : Files) → last_readable s start l ≡ last_complete s start l
  unfolding last_readable last_complete
  last_readable-last_complete s start [] = refl
  last_readable-last_complete s start ((p, bs) ∷ l) =
      rw (last_readable-last_complete s start l, read_entry-complete s start p bs) refl

  -- The chunk that a scan files under a stream and a first slot is the last of the listed sidecars
  -- of them, under a final name, that can be read and are of version 1 and beside which the
  -- payload and the index of the same slots stand under their final names; where there is none,
  -- there is no such chunk. The entry has the slots of the name, the size of the payload and what
  -- the sidecar says.
  pub get_chunk-scan :
      (s : Stream) (start : ℕ) → get_chunk (scan P files) s start ≡ last_complete s start files
  unfolding get_chunk lookup
  get_chunk-scan s start =
      ap (lookup start) (tree_of-scan s)
      ∙ lookup-scan_dir s start files []
      ∙ or_else-none (last_readable s start files)
      ∙ last_readable-last_complete s start files

  -- The chunks of a range of slots are the scanned chunks that overlap it, all of them, in
  -- ascending order of their first slots.
  pub chunks_in_range-scan :
      (s : Stream) (from_slot to_slot : ℕ)
      → Ascending (tree_of (scan P files) s)
        × (chunks_in_range (scan P files) s from_slot to_slot
            ≡ map
                (λ (p : ℕ × ChunkEntry). p.1)
                (filterb (overlaps from_slot to_slot) (tree_of (scan P files) s)))
  unfolding chunks_in_range
  chunks_in_range-scan s from_slot to_slot =
      let rising : Ascending (tree_of (scan P files) s) =
        rw (tree_of-scan s) (scan_dir-Ascending s files [] tt) in
      (
        rising,
        ap (map (λ (p : ℕ × ChunkEntry). p.1))
            (range_to-overlaps from_slot to_slot (tree_of (scan P files) s) rising),
      )
