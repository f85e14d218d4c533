-- ===== src/Tests/Frames.antt =====
-- A payload buffer of two messages, and one that ends in the middle of a frame.
use sillage.Prelude.{ℕ, ◌≡◌, List, [], ◌∷◌, map, All, arith}
use sillage.Common.Chunk.{frame, iter_frames}
use sillage.Common.Chunk.Frames.{Fits, write_all, iter_frames-write_all}
use sillage.Common.Chunk.Reparse.{IsByte, Parsed, iter_frames-Parsed}

abbrev two_payloads : List (List ℕ)
two_payloads = (1 ∷ 2 ∷ []) ∷ [] ∷ []

two_payloads-Fits : All Fits two_payloads
two_payloads-Fits = (omega arith, (omega arith, tt))

abbrev cut_frame : List ℕ
cut_frame = 1 ∷ 0 ∷ 0 ∷ 0 ∷ 9 ∷ 5 ∷ 0 ∷ 0 ∷ 0 ∷ 7 ∷ []

cut_frame-IsByte : All IsByte cut_frame
cut_frame-IsByte = ground arith

iter_frames-write_all_example : iter_frames (write_all [] two_payloads) ≡ map frame two_payloads
iter_frames-write_all_example = iter_frames-write_all two_payloads two_payloads-Fits

iter_frames-Parsed_example : Parsed cut_frame (iter_frames cut_frame)
iter_frames-Parsed_example = iter_frames-Parsed cut_frame cut_frame-IsByte
