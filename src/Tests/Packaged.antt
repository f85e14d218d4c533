-- ===== src/Tests/Packaged.antt =====
-- Packages for small runs: the payload is stored as it is, and one sidecar and one message are
-- known.
use mathlib.Core.Bool.{◌&&◌}
use sillage.Prelude.{
  ℕ, ◌≡◌, refl, ◌↔◌, Option, none, some, Bool, true, false, List, [], ◌∷◌, String, eqb, ◌==◌,
  string_eq, list_eq, arith, if◌then◌else◌,
}
use sillage.Common.Chunk.{ChunkMeta, schema_version}
use sillage.Common.Idx.{
  dim_program_id, dim_account_key, dim_signature, dim_vote_flag, dim_failed_flag,
}
use sillage.Common.Update.{SubscribeUpdate}
use sillage.Common.Packages.{Packages}
use sillage.Tests.Codec.{codec_of, two_header, transaction_of, pk}

-- The sidecar of a chunk of two transactions of slot 5.
abbrev pub two_meta : ChunkMeta
two_meta = record {
  schema_version = schema_version;
  stream = "tx";
  start_slot = 0;
  end_slot_exclusive = 10;
  first_message_slot = some 5;
  last_message_slot = some 5;
  message_count = 2;
  uncompressed_bytes = 10;
  compressed_bytes = 10;
  recv_ns_first = some 100;
  recv_ns_last = some 200;
  sealed_reason = "shutdown";
  index_dimensions =
      dim_program_id ∷ dim_account_key ∷ dim_signature ∷ dim_vote_flag ∷ dim_failed_flag ∷ [];
}

abbrev option_beq : Option ℕ → Option ℕ → Bool
option_beq none none = true
option_beq (some a) (some b) = eqb a b
option_beq _ _ = false

option_beq_iff : (a b : Option ℕ) → (option_beq a b ≡ true) ↔ (a ≡ b)
option_beq_iff a b = ground arith

abbrev slots_beq : ChunkMeta → ChunkMeta → Bool
slots_beq a b =
    (eqb a.start_slot b.start_slot && eqb a.end_slot_exclusive b.end_slot_exclusive)
    && ((option_beq a.first_message_slot b.first_message_slot
          && option_beq a.last_message_slot b.last_message_slot)
        && (option_beq a.recv_ns_first b.recv_ns_first && option_beq a.recv_ns_last b.recv_ns_last))

abbrev sizes_beq : ChunkMeta → ChunkMeta → Bool
sizes_beq a b =
    (eqb a.schema_version b.schema_version && eqb a.message_count b.message_count)
    && (eqb a.uncompressed_bytes b.uncompressed_bytes && eqb a.compressed_bytes b.compressed_bytes)

abbrev meta_beq : ChunkMeta → ChunkMeta → Bool
meta_beq a b =
    (slots_beq a b && sizes_beq a b)
    && ((a.stream == b.stream)
        && ((a.sealed_reason == b.sealed_reason) && (a.index_dimensions == b.index_dimensions)))

unfoldable pub json_one : ChunkMeta → ChunkMeta → Option (List ℕ)
json_one known m = if meta_beq known m then some (9 ∷ []) else none

meta_beq-same : (a b : ChunkMeta) → meta_beq a b ≡ true → a ≡ b
meta_beq-same a b h = ground (
  arith,
  option_beq_iff a.first_message_slot b.first_message_slot,
  option_beq_iff a.last_message_slot b.last_message_slot,
  option_beq_iff a.recv_ns_first b.recv_ns_first,
  option_beq_iff a.recv_ns_last b.recv_ns_last,
  string_eq.beq_iff a.stream b.stream,
  string_eq.beq_iff a.sealed_reason b.sealed_reason,
  (list_eq {A = String}).beq_iff a.index_dimensions b.index_dimensions,
)

pub json_one-some :
    (known m : ChunkMeta) (bs : List ℕ) → json_one known m ≡ some bs → some known ≡ some m
unfolding json_one
json_one-some known m bs e = ground (arith, meta_beq-same known m)

abbrev pub one_message : SubscribeUpdate
one_message = transaction_of true none (pk 1 ∷ [])

abbrev pub packages_of : ChunkMeta → Packages
packages_of known = record {
  header = codec_of two_header;
  to_json = json_one known;
  from_json = λ bs. some known;
  compress = λ bs. bs;
  decompress = λ bs. some bs;
  encode = λ u. 5 ∷ [];
  decode = λ bs. some one_message;
  from_json-to_json = json_one-some known;
  decompress-compress = λ bs. refl;
}

abbrev pub small_packages : Packages
small_packages = packages_of two_meta
