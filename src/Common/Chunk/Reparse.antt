-- ===== src/Common/Chunk/Reparse.antt =====
-- What the frame iterator makes of any buffer of bytes (sillage-common/src/chunk.rs).
use mathlib.Core.List.{append_assoc}
use sillage.Prelude.{
  ℕ, zero, suc, ◌/◌, ◌%◌, ◌≤◌, ◌<◌, ◌≡◌, refl, sym, ap, ◌∙◌, ◌⊎◌, inl, inr, none, some, List, [],
  ◌∷◌, ◌++◌, Bool-cases, map, arith, ltb, length, take, drop, All, All-drop, length-append,
  length-take, take-append-drop, u32_mod, to_le_bytes, from_le_bytes,
}
use sillage.Common.Chunk.{
  FrameResult, frame, bad, ChunkError, truncated_length_prefix, length_past_buffer, next, drain,
  iter_frames,
}
use sillage.Common.Chunk.Frames.{Fits, encode, encode_all, write_all, write_all-eq, drain_step}

abbrev pub IsByte : ℕ → Type 0
IsByte b = b < 256

to_from_le_bytes :
    (a b c d : ℕ)
    → IsByte a
    → IsByte b
    → IsByte c
    → IsByte d
    → to_le_bytes (from_le_bytes a b c d) ≡ a ∷ b ∷ c ∷ d ∷ []
to_from_le_bytes a b c d ha hb hc hd =
    let e0 : from_le_bytes a b c d % 256 ≡ a = omega arith in
    let e1 : (from_le_bytes a b c d / 256) % 256 ≡ b = omega arith in
    let e2 : (from_le_bytes a b c d / 65536) % 256 ≡ c = omega arith in
    let e3 : (from_le_bytes a b c d / 16777216) % 256 ≡ d = omega arith in cc

encode-take :
    (len : ℕ) (rest : List ℕ)
    → len ≤ length rest
    → len < u32_mod
    → (length (take len rest) ≡ len)
      × (encode (take len rest) ++ drop len rest ≡ to_le_bytes len ++ rest)
encode-take len rest within small =
    let e : length (take len rest) ≡ len = omega (arith, length-take len rest) in
    let f : len % u32_mod ≡ len = omega arith in
    (e, rw (e, f) (ap (λ t. to_le_bytes len ++ t) (take-append-drop len rest)))

-- What is wrong with the bytes at which the iterator gives up: they are too few for a length
-- prefix, or the length in their prefix is past their end.
abbrev pub Malformed : List ℕ → ChunkError → Type 0
Malformed (a ∷ b ∷ c ∷ d ∷ rest) e =
    (length rest < from_le_bytes a b c d)
    × (e ≡ length_past_buffer (from_le_bytes a b c d) (length rest))
Malformed buf e = (1 ≤ length buf) × (e ≡ truncated_length_prefix)

-- One step on a buffer of bytes: the end, a whole frame, or an error that ends the iteration.
abbrev Step : List ℕ → Type 0
Step buf =
    ((buf ≡ []) × (next buf ≡ none))
    ⊎ ((p : List ℕ) × (rest : List ℕ) × Fits p
        × (buf ≡ encode p ++ rest)
        × All IsByte rest
        × (next buf ≡ some (frame p, rest)))
    ⊎ ((e : ChunkError) × Malformed buf e × (next buf ≡ some (bad e, [])))

next-Step : (buf : List ℕ) → All IsByte buf → Step buf
unfolding next
next-Step [] bytes = inl (refl, refl)
next-Step (a ∷ []) bytes = inr (inr (truncated_length_prefix, (omega arith, refl), refl))
next-Step (a ∷ b ∷ []) bytes = inr (inr (truncated_length_prefix, (omega arith, refl), refl))
next-Step (a ∷ b ∷ c ∷ []) bytes = inr (inr (truncated_length_prefix, (omega arith, refl), refl))
next-Step (a ∷ b ∷ c ∷ d ∷ rest) (ha, (hb, (hc, (hd, bytes)))) =
    let len : ℕ = from_le_bytes a b c d in
    elim (Bool-cases (ltb (length rest) len)) [
      | inl past ↦
          inr (inr (length_past_buffer len (length rest), (ground (arith, past), refl), rw past))
      | inr within ↦
          let (e, f) = encode-take len rest (ground arith) (omega arith) in
          inr (
            inl (
              take len rest,
              drop len rest,
              omega arith,
              sym (f ∙ ap (λ t. t ++ rest) (to_from_le_bytes a b c d ha hb hc hd)),
              All-drop IsByte len rest bytes,
              rw within,
            ))
    ]

-- How a buffer was read: whole frames, then the end or bytes at which the iterator gives up.
pub record Parsed (buf : List ℕ) (out : List FrameResult) : Type 0 where
  pub payloads : List (List ℕ)
  pub rest : List ℕ
  pub fit : All Fits payloads
  pub split : buf ≡ write_all [] payloads ++ rest
  pub verdict :
      ((rest ≡ []) × (out ≡ map frame payloads))
      ⊎ ((e : ChunkError) × Malformed rest e × (out ≡ map frame payloads ++ bad e ∷ []))

Parsed-end : Parsed [] []
Parsed-end = record { payloads = []; rest = []; fit = tt; split = refl; verdict = inl (refl, refl) }

Parsed-error : (buf : List ℕ) (e : ChunkError) → Malformed buf e → Parsed buf (bad e ∷ [])
Parsed-error buf e h = record {
  payloads = [];
  rest = buf;
  fit = tt;
  split = refl;
  verdict = inr (e, h, refl);
}

Parsed-frame :
    {buf tail : List ℕ} {out : List FrameResult} (p : List ℕ)
    → Fits p
    → buf ≡ encode p ++ tail
    → Parsed tail out
    → Parsed buf (frame p ∷ out)
Parsed-frame {buf} {tail} {out} p fits e t = record {
  payloads = p ∷ t.payloads;
  rest = t.rest;
  fit = (fits, t.fit);
  split =
      e
      ∙ ap (λ l. encode p ++ l) (t.split ∙ ap (λ l. l ++ t.rest) (write_all-eq t.payloads []))
      ∙ sym (append_assoc (encode p) (encode_all t.payloads) t.rest)
      ∙ sym (ap (λ l. l ++ t.rest) (write_all-eq (p ∷ t.payloads) []));
  verdict = elim t.verdict [
    | inl (done, o) ↦ inl (done, ap (λ l. frame p ∷ l) o)
    | inr (x, h, o) ↦ inr (x, h, ap (λ l. frame p ∷ l) o)
  ];
}

drain-nil : (fuel : ℕ) → drain fuel [] ≡ []
unfolding drain next
drain-nil zero = refl
drain-nil (suc fuel) = refl

drain-Parsed :
    (fuel : ℕ) (buf : List ℕ) → All IsByte buf → length buf ≤ fuel → Parsed buf (drain fuel buf)
unfolding drain
drain-Parsed zero [] bytes h = Parsed-end
drain-Parsed zero (b ∷ buf) bytes h = absurd (omega arith)
drain-Parsed (suc fuel) buf bytes h = elim (next-Step buf bytes) [
  | inl (empty, e) ↦ rw (empty, drain-nil (suc fuel)) Parsed-end
  | inr (inl (p, tail, fits, split, tail_bytes, e)) ↦ rw (drain_step fuel buf e) (
      Parsed-frame p fits split (
        drain-Parsed fuel tail tail_bytes
          (omega (arith, ap length split, length-append (encode p) tail))))
  | inr (inr (x, m, e)) ↦ rw (drain_step fuel buf e, drain-nil fuel) (Parsed-error buf x m)
]

-- Every buffer of bytes is read to its end: it is the payloads of the yielded frames as the writer
-- writes them, then a rest. Either the rest is empty and there is no error, or the rest is shorter
-- than a length prefix or than the length in its prefix, and there is one error, which comes last
-- and says which of the two it is, with the two lengths.
pub iter_frames-Parsed : (buf : List ℕ) → All IsByte buf → Parsed buf (iter_frames buf)
unfolding iter_frames
iter_frames-Parsed buf bytes = drain-Parsed (length buf) buf bytes (omega arith)
