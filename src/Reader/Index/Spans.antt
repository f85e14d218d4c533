-- ===== src/Reader/Index/Spans.antt =====
-- The spans that the writer records for its bitmaps, as the reader's table finds them
-- (sillage-writer/src/index.rs, sillage-reader/src/index.rs).
use mathlib.Core.List.{append_assoc, append-nil}
use sillage.Prelude.{
  ℕ, ◌+◌, ◌-◌, ◌≤◌, ◌≡◌, refl, sym, ap, ◌∙◌, ◌⊎◌, inl, inr, String, Option, none, some, false, List,
  [], ◌∷◌, ◌++◌, arith, length, length-append, take, drop, take-append, drop-append, lookup, insert,
  lookup-insert, Ascending, lookup-Above, Option-cases, Bool-cases, ◌==◌, string_eq, ok,
  Result-cases, anyb,
}
use sillage.Common.Idx.{
  DimValue, DimEntryHeader, DimensionHeader, value_eq, value_ord, value_beq_iff,
}
use sillage.Common.Roaring.{Roaring}
use sillage.Writer.Index.{IndexBuilder, serialize_map, serialize_dims}
use sillage.Reader.Index.{Spans, insert_entries, insert_dimensions}

-- The second list begins with the first.
pub record IsPrefixOf (a b : List ℕ) : Type 0 where
  pub rest : List ℕ
  pub split : b ≡ a ++ rest

pub IsPrefixOf-trans : {a b c : List ℕ} → IsPrefixOf a b → IsPrefixOf b c → IsPrefixOf a c
IsPrefixOf-trans {a} p q = record {
  rest = p.rest ++ q.rest;
  split = q.split ∙ ap (λ t. t ++ q.rest) p.split ∙ append_assoc a p.rest q.rest;
}

slice-append : (a x e : List ℕ) → take (length x) (drop (length a) ((a ++ x) ++ e)) ≡ x
slice-append a x e =
    ap (λ t. take (length x) (drop (length a) t)) (append_assoc a x e)
    ∙ ap (take (length x)) (drop-append a (x ++ e))
    ∙ take-append x e

insert_dimensions-cons :
    (h : DimensionHeader) (hs : List DimensionHeader) (table : List (String × Spans))
    → insert_dimensions (h ∷ hs) table
      ≡ insert_dimensions hs (insert h.name (insert_entries h.entries []) table)
unfolding insert_dimensions
insert_dimensions-cons h hs table = refl

module _ (R : Roaring) where
  open R use {Bitmap, serialize}

  -- The span of the body holds the serialized bitmap.
  abbrev pub Holds : List ℕ → ℕ × ℕ → Bitmap → Type 0
  Holds body s bm = (s.0 + s.1 ≤ length body) × (take s.1 (drop s.0 body) ≡ serialize bm)

  abbrev pub Finds : List ℕ → Option (ℕ × ℕ) → Option Bitmap → Type 0
  Finds body none none = Unit {0}
  Finds body (some s) (some bm) = Holds body s bm
  Finds body _ _ = ⊥

  abbrev Matches : List ℕ → List DimEntryHeader → List (DimValue × Bitmap) → Type 0
  Matches body [] [] = Unit {0}
  Matches body (e ∷ es) ((v, bm) ∷ m) =
      (e.value ≡ v) × Holds body (e.offset, e.length) bm × Matches body es m
  Matches body _ _ = ⊥

  Holds-append :
      (a : List ℕ) (bm : Bitmap) (F : List ℕ)
      → IsPrefixOf (a ++ serialize bm) F
      → Holds F (length a, length (a ++ serialize bm) - length a) bm
  Holds-append a bm F pre =
      let len : length (a ++ serialize bm) - length a ≡ length (serialize bm) =
        omega (arith, length-append a (serialize bm)) in
      (
        omega (
          arith,
          ap length pre.split,
          length-append a (serialize bm),
          length-append (a ++ serialize bm) pre.rest,
        ),
        rw (len, pre.split) (slice-append a (serialize bm) pre.rest),
      )

  serialize_map-IsPrefixOf :
      (m : List (DimValue × Bitmap)) (body : List ℕ) → IsPrefixOf body (serialize_map R m body).0
  unfolding serialize_map
  serialize_map-IsPrefixOf [] body = record { rest = []; split = sym (append-nil body) }
  serialize_map-IsPrefixOf ((v, bm) ∷ m) body =
      IsPrefixOf-trans (record { rest = serialize bm; split = refl })
        (serialize_map-IsPrefixOf m (body ++ serialize bm))

  serialize_map-Matches :
      (m : List (DimValue × Bitmap)) (body F : List ℕ)
      → IsPrefixOf (serialize_map R m body).0 F
      → Matches F (serialize_map R m body).1 m
  unfolding serialize_map
  serialize_map-Matches [] body F p = tt
  serialize_map-Matches ((v, bm) ∷ m) body F p =
      let body' : List ℕ = body ++ serialize bm in
      (
        refl,
        Holds-append body bm F (IsPrefixOf-trans (serialize_map-IsPrefixOf m body') p),
        serialize_map-Matches m body' F p,
      )

  -- A value of the map is found at its span; another value as before.
  insert_entries-Finds :
      (F : List ℕ) (es : List DimEntryHeader) (m : List (DimValue × Bitmap)) (acc : Spans)
      (v : DimValue)
      → Matches F es m
      → Ascending m
      → ((s : ℕ × ℕ) × (bm : Bitmap) × (lookup v (insert_entries es acc) ≡ some s)
          × (lookup v m ≡ some bm)
          × Holds F s bm)
        ⊎ ((lookup v (insert_entries es acc) ≡ lookup v acc) × (lookup v m ≡ none))
  unfolding insert_entries lookup
  insert_entries-Finds F [] [] acc v ok_m asc = inr (refl, refl)
  insert_entries-Finds F [] (x ∷ m) acc v ok_m asc = absurd ok_m
  insert_entries-Finds F (e ∷ es) [] acc v ok_m asc = absurd ok_m
  insert_entries-Finds F (e ∷ es) ((w, bm) ∷ m) acc v (same, held, ok_m) asc =
      elim (insert_entries-Finds F es m (insert e.value (e.offset, e.length) acc) v ok_m asc.1) [
        | inl (s, b, found, in_map, h) ↦
            inl (s, b, found, ground (arith, value_beq_iff w v, lookup-Above w m asc.0), h)
        | inr (found, absent) ↦ elim (Bool-cases (w == v)) [
          | inl hit ↦ inl (
            (e.offset, e.length),
            bm,
            ground (arith, lookup-insert e.value v (e.offset, e.length) acc),
            rw hit,
            held,
          )
          | inr miss ↦
              inr (ground (arith, lookup-insert e.value v (e.offset, e.length) acc), rw miss absent)
        ]
      ]

  entries-Finds :
      (F : List ℕ) (es : List DimEntryHeader) (m : List (DimValue × Bitmap)) (v : DimValue)
      → Matches F es m
      → Ascending m
      → Finds F (lookup v (insert_entries es [])) (lookup v m)
  unfolding lookup
  entries-Finds F es m v ok_m asc = elim (insert_entries-Finds F es m [] v ok_m asc) [
    | inl (s, b, found, in_map, h) ↦ rw (found, in_map) h
    | inr (found, absent) ↦ rw (found, absent) tt
  ]

  -- A dimension of the builder that the reader's table has, value by value.
  pub record IsRead (F : List ℕ) (b : IndexBuilder R) (d : String) (o : Option Spans) : Type 0 where
    pub map_of : List (DimValue × Bitmap)
    pub spans : Spans
    pub built : lookup d b.dims ≡ some map_of
    pub read : o ≡ some spans
    pub finds : (v : DimValue) → Finds F (lookup v spans) (lookup v map_of)

  -- Every map of the builder is sorted.
  abbrev pub Sorted : IndexBuilder R → Type 0
  Sorted b = (d : String) (m : List (DimValue × Bitmap)) → lookup d b.dims ≡ some m → Ascending m

  serialize_dims-cons :
      (b : IndexBuilder R) (name : String) (names : List String) (body : List ℕ)
      (out : List ℕ × List DimensionHeader)
      → serialize_dims R b (name ∷ names) body ≡ ok out
      → (m : List (DimValue × Bitmap)) × (rest : List ℕ × List DimensionHeader)
        × (header : DimensionHeader) × (lookup name b.dims ≡ some m)
        × (serialize_dims R b names (serialize_map R m body).0 ≡ ok rest)
        × (header.name ≡ name)
        × (header.entries ≡ (serialize_map R m body).1)
        × (out ≡ (rest.0, header ∷ rest.1))
  unfolding serialize_dims
  serialize_dims-cons b name names body out h = elim (Option-cases (lookup name b.dims)) [
    | inl e ↦ absurd (ground (arith, e))
    | inr (m, e) ↦ elim (Option-cases (lookup name b.dim_types)) [
      | inl e' ↦ absurd (ground (arith, e, e'))
      | inr (ty, e') ↦ elim (Result-cases (serialize_dims R b names (serialize_map R m body).0)) [
        | inr (x, bad) ↦ absurd (ground (arith, e, e', bad))
        | inl (rest, e'') ↦ (
          m,
          rest,
          record { name = name; value_type = ty; entries = (serialize_map R m body).1 },
          e,
          e'',
          refl,
          refl,
          ground (arith, e, e', e''),
        )
      ]
    ]
  ]

  module _ (b : IndexBuilder R) (sorted : Sorted b) where
    serialize_dims-IsPrefixOf :
        (names : List String) (body : List ℕ) (out : List ℕ × List DimensionHeader)
        → serialize_dims R b names body ≡ ok out
        → IsPrefixOf body out.0
    unfolding serialize_dims
    serialize_dims-IsPrefixOf [] body out h = record {
      rest = [];
      split = ground (arith, append-nil body);
    }
    serialize_dims-IsPrefixOf (name ∷ names) body out h =
        let (m, rest, header, _, e, _, _, split) = serialize_dims-cons b name names body out h in
        rw split (
          IsPrefixOf-trans (serialize_map-IsPrefixOf m body)
            (serialize_dims-IsPrefixOf names (serialize_map R m body).0 rest e))

    -- The reader's table has every dimension that was serialized, and no other one.
    pub serialize_dims-IsRead :
        (names : List String) (body F : List ℕ) (out : List ℕ × List DimensionHeader)
        (table : List (String × Spans)) (d : String)
        → serialize_dims R b names body ≡ ok out
        → IsPrefixOf out.0 F
        → IsRead F b d (lookup d (insert_dimensions out.1 table))
          ⊎ ((anyb (λ name. name == d) names ≡ false)
              × (lookup d (insert_dimensions out.1 table) ≡ lookup d table))
    unfolding insert_dimensions serialize_dims
    serialize_dims-IsRead [] body F out table d h pre = inr (refl, ground arith)
    serialize_dims-IsRead (name ∷ names) body F out table d h pre =
        let (m, rest, header, built, e, hn, he, split) =
          serialize_dims-cons b name names body out h in
        let spans : Spans = insert_entries (serialize_map R m body).1 [] in
        let pre' : IsPrefixOf rest.0 F = rw split at pre in
        let within : IsPrefixOf (serialize_map R m body).0 F =
          IsPrefixOf-trans (serialize_dims-IsPrefixOf names _ rest e) pre' in
        rw (split, insert_dimensions-cons, hn, he)
          (elim (serialize_dims-IsRead names (serialize_map R m body).0 F rest
            (insert name spans table) d e pre') [
              | inl found ↦ inl found
              | inr (absent, same) ↦ elim (Bool-cases (name == d)) [
                | inl hit ↦ inl (record {
                  map_of = m;
                  spans = spans;
                  built = ground (arith, string_eq.beq_iff name d, built);
                  read = ground (arith, same, lookup-insert name d spans table);
                  finds = λ v.
                      entries-Finds F _ m v (serialize_map-Matches m body F within)
                        (sorted name m built);
                })
                | inr miss ↦
                    inr (rw miss absent, ground (arith, same, lookup-insert name d spans table))
              ]
            ])
