-- ===== src/Common/Chunk/Frames.antt =====
-- Writing frames and reading them back (sillage-common/src/chunk.rs).
use mathlib.Core.List.{append_assoc, append-nil}
use sillage.Prelude.{
  ℕ, zero, suc, ◌/◌, ◌%◌, ◌≤◌, ◌<◌, ◌≡◌, refl, sym, ap, ◌∙◌, some, List, [], ◌∷◌, ◌++◌, map, arith,
  length, All, length-append, take-append, drop-append, u32_mod, to_le_bytes, from_le_bytes,
}
use sillage.Common.Chunk.{
  FrameResult, frame, write_len_prefixed, read_frame, next, drain, iter_frames,
}

-- The writer's loop: every payload appended to the same buffer.
abbrev pub write_all : List ℕ → List (List ℕ) → List ℕ
write_all buf [] = buf
write_all buf (p ∷ ps) = write_all (write_len_prefixed buf p) ps

-- A payload whose length a `u32` holds.
abbrev pub Fits : List ℕ → Type 0
Fits p = length p < u32_mod

from_to_le_bytes :
    (n : ℕ)
    → n < u32_mod
    → from_le_bytes (n % 256) ((n / 256) % 256) ((n / 65536) % 256) ((n / 16777216) % 256) ≡ n
from_to_le_bytes n h = omega arith

-- The bytes of one frame.
abbrev pub encode : List ℕ → List ℕ
encode p = to_le_bytes (length p % u32_mod) ++ p

abbrev pub encode_all : List (List ℕ) → List ℕ
encode_all [] = []
encode_all (p ∷ ps) = encode p ++ encode_all ps

pub write_all-eq : (ps : List (List ℕ)) (buf : List ℕ) → write_all buf ps ≡ buf ++ encode_all ps
unfolding write_len_prefixed
write_all-eq [] buf = sym (append-nil buf)
write_all-eq (p ∷ ps) buf =
    write_all-eq ps (buf ++ encode p) ∙ append_assoc buf (encode p) (encode_all ps)

read_frame-append : (p rest : List ℕ) → read_frame (length p) (p ++ rest) ≡ (frame p, rest)
unfolding read_frame
read_frame-append p rest =
    ground (arith, length-append p rest, take-append p rest, drop-append p rest)

pub next-encode : (p rest : List ℕ) → Fits p → next (encode p ++ rest) ≡ some (frame p, rest)
unfolding next
next-encode p rest h =
    let small : length p % u32_mod ≡ length p = omega arith in
    rw (small, from_to_le_bytes (length p) h) (ap some (read_frame-append p rest))

pub drain_step :
    (fuel : ℕ) (buf : List ℕ) {r : FrameResult} {rest : List ℕ}
    → next buf ≡ some (r, rest)
    → drain (suc fuel) buf ≡ r ∷ drain fuel rest
unfolding drain
drain_step fuel buf e = rw (e, drain)

drain-encode_all :
    (fuel : ℕ) (ps : List (List ℕ))
    → All Fits ps
    → length (encode_all ps) ≤ fuel
    → drain fuel (encode_all ps) ≡ map frame ps
unfolding drain next
drain-encode_all zero [] fits h = refl
drain-encode_all zero (p ∷ ps) fits h = absurd (omega arith)
drain-encode_all (suc fuel) [] fits h = refl
drain-encode_all (suc fuel) (p ∷ ps) fits h =
    drain_step fuel (encode p ++ encode_all ps) (next-encode p (encode_all ps) fits.0)
    ∙ ap (λ t. frame p ∷ t)
        (drain-encode_all fuel ps fits.1 (omega (arith, length-append p (encode_all ps))))

-- Payloads of fewer than 2 ^ 32 bytes, written one after another, are read back in order and whole.
pub iter_frames-write_all :
    (ps : List (List ℕ)) → All Fits ps → iter_frames (write_all [] ps) ≡ map frame ps
unfolding iter_frames
iter_frames-write_all ps fits =
    rw (write_all-eq ps []) (drain-encode_all (length (encode_all ps)) ps fits (omega arith))
