-- ===== src/Reader/Catalog.antt =====
-- `ChunkCatalog` of sillage-reader/src/storage.rs: the chunks that are complete on the disk.
--
-- The directories are the model's files, each of which can be read, in the order of the list. A
-- name that does not parse is no path of the model. The paths of an entry follow from its stream
-- and slots.
use sillage.Prelude.{
  ℕ, Option, none, some, Bool, true, false, not, ◌&&◌, ◌||◌, List, [], ◌∷◌, map, ltb, eqb, nat_eq,
  nat_ord, ◌==◌, if◌then◌else◌, length, filterb, lookup, insert_sorted, insert, max,
}
use sillage.Common.Stream.{Stream, all_streams, stream_beq, stream_eq}
use sillage.Common.Chunk.{ChunkMeta, schema_version}
use sillage.Common.Packages.{Packages}
use sillage.Common.Disk.{
  FilePath, Ext, zst, idx, meta_json, ext_beq, path_beq, path_eq, Files, is_file,
}
pub mod Ranges

pub record ChunkEntry : Type 0 where
  pub stream : Stream
  pub start_slot : ℕ
  pub end_slot_exclusive : ℕ
  pub zst_len : ℕ
  pub meta : ChunkMeta

abbrev pub Tree : Type 0
Tree = List (ℕ × ChunkEntry)

abbrev pub ChunkCatalog : Type 0
ChunkCatalog = List (Stream × Tree)

abbrev pub sibling : FilePath → Ext → FilePath
sibling p e = record p { ext = e }

abbrev pub file_len : FilePath → Files → ℕ
file_len p m = elim (lookup p m) [ none ↦ 0 | some bs ↦ length bs ]

module _ (P : Packages) where
  -- The body of the loop over a directory: an incomplete or unreadable chunk is skipped.
  unfoldable pub read_entry : Files → FilePath → List ℕ → Option ChunkEntry
  read_entry files p bs =
      if ext_beq p.ext meta_json && not p.partial
      then if is_file (sibling p zst) files && is_file (sibling p idx) files
        then elim (P.from_json bs) [
          | none ↦ none
          | some meta ↦
              if eqb meta.schema_version schema_version
              then some (record {
                stream = p.stream;
                start_slot = p.start_slot;
                end_slot_exclusive = p.end_slot;
                zst_len = file_len (sibling p zst) files;
                meta = meta;
              })
              else none
        ]
        else none
      else none

  scan_dir : Stream → Files → Files → Tree → Tree
  unfolding read_entry
  scan_dir s files [] tree = tree
  scan_dir s files ((p, bs) ∷ rest) tree =
      if stream_beq p.stream s
      then elim (read_entry files p bs) [
        | none ↦ scan_dir s files rest tree
        | some e ↦ scan_dir s files rest (insert_sorted e.start_slot e tree)
      ]
      else scan_dir s files rest tree

  -- A stream has a tree when it has a chunk.
  scan_streams : List Stream → Files → ChunkCatalog
  unfolding scan_dir
  scan_streams [] files = []
  scan_streams (s ∷ ss) files =
      let rest = scan_streams ss files in
      elim (scan_dir s files files []) [ [] ↦ rest | e ∷ es ↦ (s, e ∷ es) ∷ rest ]

  unfoldable pub scan : Files → ChunkCatalog
  unfolding scan_streams
  scan files = scan_streams all_streams files

-- `BTreeMap::range(..to)`: the entries up to the first key that is not below `to`.
unfoldable pub range_to : ℕ → Tree → Tree
range_to to [] = []
range_to to ((k, e) ∷ m) = let rest = range_to to m in if ltb k to then (k, e) ∷ rest else []

unfoldable pub tree_of : ChunkCatalog → Stream → Tree
tree_of catalog s = elim (lookup s catalog) [ none ↦ [] | some t ↦ t ]

unfoldable pub chunks_in_range : ChunkCatalog → Stream → ℕ → ℕ → List ChunkEntry
unfolding range_to tree_of
chunks_in_range catalog s from_slot to_slot =
    map (λ (p : ℕ × ChunkEntry). p.1)
      (filterb (λ (p : ℕ × ChunkEntry). ltb from_slot p.1.end_slot_exclusive)
        (range_to to_slot (tree_of catalog s)))

-- `get`.
unfoldable pub get_chunk : ChunkCatalog → Stream → ℕ → Option ChunkEntry
get_chunk catalog s start_slot = lookup start_slot (tree_of catalog s)

abbrev pub first_key : Tree → Option ℕ
first_key [] = none
first_key (p ∷ m) = some p.0

unfoldable pub last_end : Tree → Option ℕ
last_end [] = none
last_end (p ∷ []) = some p.1.end_slot_exclusive
last_end (p ∷ q ∷ m) = last_end (q ∷ m)

pub record StreamSummary : Type 0 where
  pub stream : Stream
  pub count : ℕ
  pub min_start : Option ℕ
  pub max_end : Option ℕ

unfoldable pub summary_of : ChunkCatalog → List Stream → List StreamSummary
unfolding last_end
summary_of catalog [] = []
summary_of catalog (s ∷ ss) =
    let rest = summary_of catalog ss in
    elim (lookup s catalog) [
      | none ↦ rest
      | some t ↦
          record { stream = s; count = length t; min_start = first_key t; max_end = last_end t }
          ∷ rest
    ]

unfoldable pub summary : ChunkCatalog → List StreamSummary
unfolding summary_of
summary catalog = summary_of catalog all_streams

abbrev pub max_opt : Option ℕ → Option ℕ → Option ℕ
max_opt none b = b
max_opt (some a) none = some a
max_opt (some a) (some b) = some (max a b)

unfoldable pub newest_of : List StreamSummary → Option ℕ
newest_of [] = none
newest_of (r ∷ rs) = max_opt r.max_end (newest_of rs)

unfoldable pub newest_end_slot : ChunkCatalog → Option ℕ
unfolding newest_of
newest_end_slot catalog = newest_of (summary catalog)
