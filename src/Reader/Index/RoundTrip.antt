-- ===== src/Reader/Index/RoundTrip.antt =====
-- An index file that the writer made, read by the reader
-- (sillage-writer/src/index.rs, sillage-reader/src/index.rs).
use mathlib.Core.List.{append-nil}
use sillage.Prelude.{
  ℕ, ◌+◌, ◌-◌, ◌/◌, ◌%◌, ◌<◌, ◌≡◌, refl, sym, ap, ◌∙◌, inl, inr, String, Option, none, some, false,
  List, [], ◌∷◌, ◌++◌, arith, length, ltb, length-append, drop, take-append, drop-append, drop-drop,
  lookup, Option-cases, Result-cases, string_eq, ok, u32_mod, u64_mod, from_le_bytes, to_le_bytes,
}
use sillage.Common.Idx.{DimValue, DimensionHeader, IdxHeader, value_eq, idx_magic, idx_version}
use sillage.Common.Roaring.{Roaring}
use sillage.Writer.Index.{IndexBuilder, serialize_dims, serialize_index, header_of}
use sillage.Common.Packages.{HeaderCodec}
use sillage.Writer.Index.Observe.{IsWf}
use sillage.Reader.Index.{
  ChunkIndex, Spans, parse_chunk_index, message_count, read_span, read_value, bitmap_for,
  insert_dimensions,
}
use sillage.Reader.Index.Spans.{Holds, Finds, IsRead, serialize_dims-IsRead}

-- What the builder holds for a value of a dimension.
abbrev pub stored : (R : Roaring) → IndexBuilder R → String → DimValue → Option R.Bitmap
stored R b d v = elim (lookup d b.dims) [ none ↦ none | some m ↦ lookup v m ]

read_span-Holds :
    (R : Roaring) (body : List ℕ) (s : ℕ × ℕ) (bm : R.Bitmap)
    → length body < u64_mod
    → Holds R body s bm
    → read_span R body s.0 s.1 ≡ ok (some bm)
unfolding read_span
read_span-Holds R body (start, len) bm small (fits, slice) =
    let e : (start + len) % u64_mod ≡ start + len = omega arith in
    let f : (start + len) - start ≡ len = omega arith in
    let g : ltb (length body) (start + len) ≡ false = ground arith in
    let h : ltb (start + len) start ≡ false = ground arith in
    rw (e, g, h, f, slice, R.deserialize-serialize)

-- A dimension that was read gives back what was stored.
read_value-IsRead :
    (R : Roaring) (b : IndexBuilder R) (body : List ℕ) (d : String) (o : Option Spans)
    (v : DimValue)
    → length body < u64_mod
    → IsRead R body b d o
    → read_value R body o v ≡ ok (stored R b d v)
unfolding read_value
read_value-IsRead R b body d o v small r =
    rw (r.read, stored, r.built) (go (lookup v r.spans) (lookup v r.map_of) (r.finds v))
  where
    go :
        (s : Option (ℕ × ℕ)) (m : Option R.Bitmap)
        → Finds R body s m
        → (elim s [ none ↦ ok none | some (start, len) ↦ read_span R body start len ]) ≡ ok m
    go none none h = refl
    go none (some bm) h = absurd h
    go (some s) none h = absurd h
    go (some s) (some bm) h = read_span-Holds R body s bm small h

-- The first nine bytes and what follows them, parsed.
parse_framed :
    (codec : HeaderCodec) (h : IdxHeader) (hb body : List ℕ)
    → codec.from_slice hb ≡ some h
    → length hb < u32_mod
    → let raw = idx_magic ++ (idx_version ∷ (to_le_bytes (length hb % u32_mod) ++ (hb ++ body))) in
      (parse_chunk_index codec (some raw)
        ≡ ok (record {
          raw = raw;
          header = h;
          table = insert_dimensions h.dimensions [];
          body_start = 9 + length hb;
        }))
      × (drop (9 + length hb) raw ≡ body)
unfolding parse_chunk_index
parse_framed codec h hb body e small =
    let raw : List ℕ =
      idx_magic ++ (idx_version ∷ (to_le_bytes (length hb % u32_mod) ++ (hb ++ body))) in
    let n : ℕ = length hb % u32_mod in
    let len : from_le_bytes (n % 256) ((n / 256) % 256) ((n / 65536) % 256) ((n / 16777216) % 256)
        ≡ length hb =
      omega arith in
    let long : ltb (length raw) 9 ≡ false = ground arith in
    let fits : ltb (length raw) (9 + length hb) ≡ false = ground (arith, length-append hb body) in
    (
      rw (len, long, fits, take-append hb body, e),
      drop-drop 9 (length hb) raw ∙ drop-append hb body,
    )

-- A successful `serialize` and what it wrote.
serialize_index-ok :
    (R : Roaring) (codec : HeaderCodec) (b : IndexBuilder R) (start_slot end_slot count : ℕ)
    (raw : List ℕ)
    → serialize_index R codec b start_slot end_slot count ≡ ok raw
    → (body : List ℕ) × (dimensions : List DimensionHeader) × (hb : List ℕ) × (serialize_dims R b
          b.order []
        ≡ ok (body, dimensions))
      × (codec.to_vec_named (header_of R b start_slot end_slot count dimensions) ≡ some hb)
      × (raw ≡ idx_magic ++ (idx_version ∷ (to_le_bytes (length hb % u32_mod) ++ (hb ++ body))))
unfolding serialize_index
serialize_index-ok R codec b start_slot end_slot count raw h =
    elim (Result-cases (serialize_dims R b b.order [])) [
      | inr (x, e) ↦ absurd (ground (arith, e))
      | inl (out, e) ↦
          elim (Option-cases (codec.to_vec_named (header_of R b start_slot end_slot count out.1))) [
            | inl e' ↦ absurd (ground (arith, e, e'))
            | inr (hb, e') ↦ (out.0, out.1, hb, e, e', ground (arith, e, e'))
          ]
    ]

module _ {raw : List ℕ} (hb body : List ℕ)
    (split : raw ≡ idx_magic ++ (idx_version ∷ (to_le_bytes (length hb % u32_mod) ++ (hb ++ body))))
    (small : length raw < u32_mod) where
  size_left : length hb < u32_mod
  size_left = omega (arith, ap length split, length-append hb body)

  size_right : length body < u64_mod
  size_right = omega (arith, ap length split, length-append hb body)

read_dimension :
    (R : Roaring) (b : IndexBuilder R)
    → IsWf R b
    → (body : List ℕ) (dims : List DimensionHeader) (d : String) (v : DimValue)
    → length body < u64_mod
    → serialize_dims R b b.order [] ≡ ok (body, dims)
    → read_value R body (lookup d (insert_dimensions dims [])) v ≡ ok (stored R b d v)
unfolding read_value lookup
read_dimension R b w body dims d v small e =
    elim (serialize_dims-IsRead R b w.sorted b.order [] body (body, dims) [] d e
      (record { rest = []; split = sym (append-nil body) })) [
        | inl r ↦ read_value-IsRead R b body d _ v small r
        | inr (absent, missing) ↦ rw (missing, stored, w.closed d absent)
      ]

-- What the writer serializes the reader parses, and every bitmap is found again, where the file is
-- below 4 GiB: for each dimension and value the lookup gives what the builder stored.
pub bitmap_for-serialize :
    (R : Roaring) (codec : HeaderCodec) (b : IndexBuilder R) (start_slot end_slot count : ℕ)
    (raw : List ℕ)
    → IsWf R b
    → serialize_index R codec b start_slot end_slot count ≡ ok raw
    → length raw < u32_mod
    → (idx : ChunkIndex) × (parse_chunk_index codec (some raw) ≡ ok idx)
      × (message_count idx ≡ count)
      × ((d : String) (v : DimValue) → bitmap_for R idx d v ≡ ok (stored R b d v))
unfolding message_count bitmap_for header_of
bitmap_for-serialize R codec b start_slot end_slot count raw w h small =
    let (body, dims, hb, e, enc, split) =
      serialize_index-ok R codec b start_slot end_slot count raw h in
    let dec = codec.from_slice-to_vec _ hb enc in
    let (parsed, tail) = parse_framed codec _ hb body dec (size_left hb body split small) in
    (
      record {
        raw = raw;
        header = header_of R b start_slot end_slot count dims;
        table = insert_dimensions dims [];
        body_start = 9 + length hb;
      },
      rw split parsed,
      refl,
      λ d v.
          rw (split, tail) (read_dimension R b w body dims d v (size_right hb body split small) e),
    )
