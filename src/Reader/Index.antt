-- ===== src/Reader/Index.antt =====
-- sillage-reader/src/index.rs: parsing an index file, and looking a bitmap up in it.
pub mod Spans
pub mod RoundTrip
use sillage.Prelude.{
  ℕ, ◌+◌, ◌-◌, ◌%◌, String, Option, none, some, Bool, not, true, false, List, [], ◌∷◌, ◌++◌, map,
  eqb, ltb, if◌then◌else◌, length, get_elem?, take, drop, Result, ok, err, ◌>>=◌, ◌>>◌, bail_if,
  or_fail, lookup, insert, from_le_bytes, add64, string_eq, nat_eq, list_eq, ◌==◌, get_or,
}
use sillage.Common.Idx.{
  DimValue, DimEntryHeader, DimensionHeader, IdxHeader, idx_magic, idx_version, value_eq,
}
use sillage.Common.Roaring.{Roaring}
use sillage.Common.Packages.{HeaderCodec}

-- `panic` is the slice of the body whose end has wrapped below its start.
pub data IndexError : Type 0 where
  io too_short wrong_magic wrong_version header_past_end bad_header : IndexError
  slice_past_body bad_bitmap panic : IndexError

abbrev pub Spans : Type 0
Spans = List (DimValue × (ℕ × ℕ))

pub record ChunkIndex : Type 0 where
  pub raw : List ℕ
  pub header : IdxHeader
  -- dimension → value → (offset, length) in the body
  pub table : List (String × Spans)
  pub body_start : ℕ

insert_entries : List DimEntryHeader → Spans → Spans
insert_entries [] m = m
insert_entries (e ∷ es) m = insert_entries es (insert e.value (e.offset, e.length) m)

pub insert_dimensions : List DimensionHeader → List (String × Spans) → List (String × Spans)
insert_dimensions [] table = table
insert_dimensions (d ∷ ds) table =
    insert_dimensions ds (insert d.name (insert_entries d.entries []) table)

-- `u32::from_le_bytes(raw[5..9])`.
header_len_of : List ℕ → ℕ
header_len_of raw =
    from_le_bytes (get_or raw 5 0) (get_or raw 6 0) (get_or raw 7 0) (get_or raw 8 0)

-- The argument is what reading the file gives; `none` is an I/O error.
unfoldable pub parse_chunk_index : HeaderCodec → Option (List ℕ) → Result IndexError ChunkIndex
unfolding header_len_of insert_dimensions insert_entries
parse_chunk_index codec file = do
  raw ← or_fail file io
  bail_if (ltb (length raw) 9) too_short
  bail_if (not (take 4 raw == idx_magic)) wrong_magic
  bail_if (not (get_or raw 4 0 == idx_version)) wrong_version
  let header_len = header_len_of raw
  bail_if (ltb (length raw) (9 + header_len)) header_past_end
  header ← or_fail (codec.from_slice (take header_len (drop 9 raw))) bad_header
  ok (record {
    raw = raw;
    header = header;
    table = insert_dimensions header.dimensions [];
    body_start = 9 + header_len;
  })

unfoldable pub message_count : ChunkIndex → ℕ
message_count idx = idx.header.message_count

module _ (R : Roaring) where
  open R use {Bitmap, deserialize}

  -- The slice `body[start..start + length]`, deserialized. The sum is computed in a `usize`.
  read_span : List ℕ → ℕ → ℕ → Result IndexError (Option Bitmap)
  read_span body start len = do
    let end = add64 start len
    bail_if (ltb (length body) end) slice_past_body
    bail_if (ltb end start) panic
    bitmap ← or_fail (deserialize (take (end - start) (drop start body))) bad_bitmap
    ok (some bitmap)

  read_value : List ℕ → Option Spans → DimValue → Result IndexError (Option Bitmap)
  read_value body none value = ok none
  read_value body (some m) value = elim (lookup value m) [
    | none ↦ ok none
    | some (start, len) ↦ read_span body start len
  ]

  unfoldable pub bitmap_for : ChunkIndex → String → DimValue → Result IndexError (Option Bitmap)
  unfolding read_value read_span
  bitmap_for idx dim value = read_value (drop idx.body_start idx.raw) (lookup dim idx.table) value
