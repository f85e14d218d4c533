-- ===== src/Tests/Catalog.antt =====
-- A scan of a directory with one complete chunk and one without an index, and the decoding of a
-- payload.
use sillage.Prelude.{
  ℕ, nat_eq, nat_ord, ◌≡◌, refl, some, List, [], ◌∷◌, length, get_elem?, map, filterb, or_fail, ok,
  arith, Ascending, ◌^◌, ◌%◌, ◌<◌,
}
use sillage.Common.Stream.{tx}
use sillage.Common.Update.{SubscribeUpdate}
use sillage.Common.Disk.{Files, zst, idx, meta_json}
use sillage.Writer.Chunker.Sidecar.{stem_path}
use sillage.Reader.Catalog.{ChunkEntry, scan, tree_of, chunks_in_range, get_chunk}
use sillage.Reader.Catalog.Ranges.{overlaps, last_complete, get_chunk-scan, chunks_in_range-scan}
use sillage.Reader.Decoded.{DecodedChunk, out_of_range, decode_chunk, decode_message}
use sillage.Reader.Decoded.Messages.{payload_of, decode_message-payload_of}
use sillage.Reader.Cache.{empty_cache}
use sillage.Reader.Cache.Budget.{Access, fast, slow, IsWf, WithinBudget, serve, serve-empty_cache}
use sillage.Tests.Packaged.{small_packages, one_message}

abbrev two_chunks : Files
two_chunks =
    (stem_path tx 0 10 meta_json, 9 ∷ [])
    ∷ (stem_path tx 0 10 zst, 5 ∷ [])
    ∷ (stem_path tx 0 10 idx, [])
    ∷ (stem_path tx 10 20 meta_json, 9 ∷ [])
    ∷ (stem_path tx 10 20 zst, 5 ∷ [])
    ∷ []

get_chunk-scan_example :
    get_chunk (scan small_packages two_chunks) tx 0
    ≡ last_complete small_packages two_chunks tx 0 two_chunks
get_chunk-scan_example = get_chunk-scan small_packages two_chunks tx 0

chunks_in_range-scan_example :
    Ascending (tree_of (scan small_packages two_chunks) tx)
    × (chunks_in_range (scan small_packages two_chunks) tx 3 15
        ≡ map
            (λ (p : ℕ × ChunkEntry). p.1)
            (filterb (overlaps 3 15) (tree_of (scan small_packages two_chunks) tx)))
chunks_in_range-scan_example = chunks_in_range-scan small_packages two_chunks tx 3 15

abbrev same_messages : List SubscribeUpdate
same_messages = one_message ∷ one_message ∷ []

decode_message-payload_of_example :
    (c : DecodedChunk) × (decode_chunk small_packages
        (some (payload_of small_packages same_messages))
      ≡ ok c)
    × (length c.frames ≡ 2)
    × ((o : ℕ)
        → decode_message small_packages c o ≡ or_fail (get_elem? same_messages o) out_of_range)
decode_message-payload_of_example =
    decode_message-payload_of small_packages same_messages (omega arith, (omega arith, tt))
      (refl, (refl, tt))

-- Values whose size is their remainder.
abbrev size_of : ℕ → ℕ
size_of n = n % 100

size_of-small : (n : ℕ) → size_of n < 2 ^ 63
size_of-small n = omega arith

abbrev three_accesses : List (Access ℕ ℕ)
three_accesses = slow 1 40 ∷ slow 2 50 ∷ fast 1 ∷ slow 3 30 ∷ []

serve-empty_cache_example :
    IsWf size_of (serve size_of 80 three_accesses (empty_cache size_of))
    × WithinBudget size_of 80 (serve size_of 80 three_accesses (empty_cache size_of))
serve-empty_cache_example = serve-empty_cache size_of 80 three_accesses size_of-small (omega arith)
