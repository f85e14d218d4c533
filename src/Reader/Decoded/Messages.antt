-- ===== src/Reader/Decoded/Messages.antt =====
-- A sealed payload gives back the messages that were appended to it, by their ordinals
-- (sillage-reader/src/storage.rs against sillage-writer/src/chunker.rs).
use mathlib.Core.List.{append_assoc}
use sillage.Prelude.{
  ℕ, zero, suc, ◌+◌, ◌-◌, ◌≡◌, refl, sym, ap, subst, ◌∙◌, Option, none, some, List, [], ◌∷◌, ◌++◌,
  map, length, get_elem?, take, drop, All, ok, or_fail, arith, length-append, take-append,
  drop-append, drop-drop, Option-cases, some_inj, inl, inr,
}
use sillage.Common.Chunk.{frame}
use sillage.Common.Chunk.Frames.{
  write_all, Fits, encode, encode_all, write_all-eq, iter_frames-write_all,
}
use sillage.Common.Update.{SubscribeUpdate}
use sillage.Common.Packages.{Packages, ReadsBack}
use sillage.Reader.Decoded.{
  DecodedChunk, out_of_range, ranges, decode_chunk, frame_at, decode_message,
}

-- The ranges of payloads that stand one after another.
abbrev spans : ℕ → List (List ℕ) → List (ℕ × ℕ)
spans offset [] = []
spans offset (p ∷ ps) = (offset + 4, offset + 4 + length p) ∷ spans (offset + 4 + length p) ps

ranges-frames :
    (offset : ℕ) (ps : List (List ℕ)) → ranges offset (map frame ps) ≡ ok (spans offset ps)
unfolding ranges
ranges-frames offset [] = refl
ranges-frames offset (p ∷ ps) = rw (ranges, ranges-frames (offset + 4 + length p) ps) refl

length-spans : (offset : ℕ) (ps : List (List ℕ)) → length (spans offset ps) ≡ length ps
length-spans offset [] = refl
length-spans offset (p ∷ ps) = ap suc (length-spans (offset + 4 + length p) ps)

abbrev slice : List ℕ → Option (ℕ × ℕ) → Option (List ℕ)
slice raw none = none
slice raw (some (start, end)) = some (take (end - start) (drop start raw))

slice-here :
    (pre p rest : List ℕ)
    → take
        (length pre + 4 + length p - (length pre + 4))
        (drop (length pre + 4) (pre ++ (encode p ++ rest)))
      ≡ p
slice-here pre p rest =
    let n : length pre + 4 + length p - (length pre + 4) ≡ length p = omega arith in
    rw (n, drop-drop (length pre) 4 (pre ++ (encode p ++ rest)), drop-append pre (encode p ++ rest))
      (take-append p rest)

slice-spans :
    (pre : List ℕ) (ps : List (List ℕ)) (o : ℕ)
    → slice (pre ++ encode_all ps) (get_elem? (spans (length pre) ps) o) ≡ get_elem? ps o
slice-spans pre [] o = refl
slice-spans pre (p ∷ ps) zero = ap some (slice-here pre p (encode_all ps))
slice-spans pre (p ∷ ps) (suc o) =
    let n : length (pre ++ encode p) ≡ length pre + 4 + length p =
      omega (arith, length-append pre (encode p)) in
    let later = slice-spans (pre ++ encode p) ps o in
    subst
      (λ k. slice (pre ++ (encode p ++ encode_all ps)) (get_elem? (spans k ps) o) ≡ get_elem? ps o)
      n
      (subst (λ raw. slice raw (get_elem? (spans (length (pre ++ encode p)) ps) o) ≡ get_elem? ps o)
        (append_assoc pre (encode p) (encode_all ps)) later)

frame_at-spans :
    (ps : List (List ℕ)) (o : ℕ)
    → frame_at (record { raw = encode_all ps; frames = spans 0 ps }) o ≡ get_elem? ps o
unfolding frame_at
frame_at-spans ps o = elim (Option-cases (get_elem? (spans 0 ps) o)) [
  | inl e ↦ rw (frame_at, e) (sym (ap (slice (encode_all ps)) e) ∙ slice-spans [] ps o)
  | inr ((a, b), e) ↦ rw (frame_at, e) (sym (ap (slice (encode_all ps)) e) ∙ slice-spans [] ps o)
]

-- The messages of a chunk as the writer's encoder was given them.
abbrev pub payload_of : Packages → List SubscribeUpdate → List ℕ
payload_of P us = write_all [] (map P.encode us)

All-map_encode :
    (P : Packages) (us : List SubscribeUpdate)
    → All (λ u. Fits (P.encode u)) us
    → All Fits (map P.encode us)
All-map_encode P [] h = tt
All-map_encode P (u ∷ us) h = (h.0, All-map_encode P us h.1)

get_elem?-map :
    (P : Packages) (us : List SubscribeUpdate) (o : ℕ)
    → get_elem? (map P.encode us) o
      ≡ elim (get_elem? us o) [ none ↦ none | some u ↦ some (P.encode u) ]
get_elem?-map P [] o = refl
get_elem?-map P (u ∷ us) zero = refl
get_elem?-map P (u ∷ us) (suc o) = get_elem?-map P us o

length-map_encode :
    (P : Packages) (us : List SubscribeUpdate) → length (map P.encode us) ≡ length us
length-map_encode P [] = refl
length-map_encode P (u ∷ us) = ap suc (length-map_encode P us)

-- What the reader decodes from a sealed payload.
abbrev chunk_of : Packages → List SubscribeUpdate → DecodedChunk
chunk_of P us = record { raw = encode_all (map P.encode us); frames = spans 0 (map P.encode us) }

decode_chunk-payload :
    (P : Packages) (us : List SubscribeUpdate)
    → All (λ u. Fits (P.encode u)) us
    → decode_chunk P (some (P.compress (payload_of P us))) ≡ ok (chunk_of P us)
unfolding decode_chunk
decode_chunk-payload P us fits =
    rw
      (
        decode_chunk,
        P.decompress-compress (payload_of P us),
        iter_frames-write_all (map P.encode us) (All-map_encode P us fits),
        ranges-frames 0 (map P.encode us),
        write_all-eq (map P.encode us) [],
      )
      refl

get_elem?-ReadsBack :
    (P : Packages) (us : List SubscribeUpdate) (o : ℕ) (u : SubscribeUpdate)
    → All (ReadsBack P) us
    → get_elem? us o ≡ some u
    → ReadsBack P u
get_elem?-ReadsBack P [] o u h e = ground arith
get_elem?-ReadsBack P (v ∷ us) zero u h e = subst (ReadsBack P) (some_inj e) h.0
get_elem?-ReadsBack P (v ∷ us) (suc o) u h e = get_elem?-ReadsBack P us o u h.1 e

decode_message-chunk :
    (P : Packages) (us : List SubscribeUpdate) (o : ℕ)
    → All (ReadsBack P) us
    → decode_message P (chunk_of P us) o ≡ or_fail (get_elem? us o) out_of_range
unfolding decode_message
decode_message-chunk P us o back = elim (Option-cases (get_elem? us o)) [
  | inl e ↦ rw (decode_message, frame_at-spans (map P.encode us) o, get_elem?-map P us o, e) refl
  | inr (u, e) ↦
      let read : P.decode (P.encode u) ≡ some u = get_elem?-ReadsBack P us o u back e in
      rw (decode_message, frame_at-spans (map P.encode us) o, get_elem?-map P us o, e, read) refl
]

-- A payload that the writer framed and compressed, of messages of fewer than 2 ^ 32 bytes that
-- prost reads back, decodes
-- to as many frames as there were messages, and every ordinal to its message; an ordinal past the
-- last is an error.
pub decode_message-payload_of :
    (P : Packages) (us : List SubscribeUpdate)
    → All (λ u. Fits (P.encode u)) us
    → All (ReadsBack P) us
    → (c : DecodedChunk) × (decode_chunk P (some (P.compress (payload_of P us))) ≡ ok c)
      × (length c.frames ≡ length us)
      × ((o : ℕ) → decode_message P c o ≡ or_fail (get_elem? us o) out_of_range)
decode_message-payload_of P us fits back = (
  chunk_of P us,
  decode_chunk-payload P us fits,
  length-spans 0 (map P.encode us) ∙ length-map_encode P us,
  λ o. decode_message-chunk P us o back,
)
