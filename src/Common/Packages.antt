-- ===== src/Common/Packages.antt =====
-- The packages that turn values into bytes: serde_json for the sidecar, zstd for the payload,
-- prost for the messages, rmp_serde for the index header. Each reads back what it wrote.
use sillage.Prelude.{ℕ, ◌≡◌, Option, some, List}
use sillage.Common.Chunk.{ChunkMeta}
use sillage.Common.Idx.{IdxHeader}
use sillage.Common.Update.{SubscribeUpdate}

-- `rmp_serde` may refuse to encode.
pub record HeaderCodec : Type 0 where
  pub to_vec_named : IdxHeader → Option (List ℕ)
  pub from_slice : List ℕ → Option IdxHeader
  pub from_slice-to_vec :
      (h : IdxHeader) (bs : List ℕ) → to_vec_named h ≡ some bs → from_slice bs ≡ some h

pub record Packages : Type 0 where
  pub header : HeaderCodec
  pub to_json : ChunkMeta → Option (List ℕ)
  pub from_json : List ℕ → Option ChunkMeta
  pub compress : List ℕ → List ℕ
  pub decompress : List ℕ → Option (List ℕ)
  pub encode : SubscribeUpdate → List ℕ
  pub decode : List ℕ → Option SubscribeUpdate
  pub from_json-to_json :
      (m : ChunkMeta) (bs : List ℕ) → to_json m ≡ some bs → from_json bs ≡ some m
  pub decompress-compress : (bs : List ℕ) → decompress (compress bs) ≡ some bs

-- What prost documents of a message that it encodes.
abbrev pub ReadsBack : Packages → SubscribeUpdate → Type 0
ReadsBack P u = P.decode (P.encode u) ≡ some u
