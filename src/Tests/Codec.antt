-- ===== src/Tests/Codec.antt =====
-- A header codec that knows one header, and the chunk of two transactions that it belongs to.
use mathlib.Core.Bool.{◌&&◌}
use sillage.Prelude.{
  ℕ, ◌≡◌, ◌↔◌, String, Option, none, some, Bool, true, false, List, [], ◌∷◌, ◌++◌, eqb,
  if◌then◌else◌, Eq, ◌==◌, list_eq, string_eq, nat_eq, arith, to_le_bytes, zero, suc,
}
use sillage.Common.Idx.{
  DimValue, bytes, DimValueType, pubkey32, signature64, DimEntryHeader, DimensionHeader, IdxHeader,
  value_beq, value_beq_iff, idx_magic, idx_version, dim_program_id, dim_account_key, dim_signature,
  dim_vote_flag, dim_failed_flag, dim_account_pubkey, dim_owner_program,
}
use sillage.Common.Update.{SubscribeUpdate, UpdateOneof}
use sillage.Common.Packages.{HeaderCodec}

abbrev type_beq : DimValueType → DimValueType → Bool
type_beq pubkey32 pubkey32 = true
type_beq signature64 signature64 = true
type_beq DimValueType.u64 DimValueType.u64 = true
type_beq DimValueType.bool DimValueType.bool = true
type_beq _ _ = false

type_beq_iff : (a b : DimValueType) → (type_beq a b ≡ true) ↔ (a ≡ b)
type_beq_iff a b = ground arith

abbrev entry_beq : DimEntryHeader → DimEntryHeader → Bool
entry_beq a b = value_beq a.value b.value && (eqb a.offset b.offset && eqb a.length b.length)

entry_beq_iff : (a b : DimEntryHeader) → (entry_beq a b ≡ true) ↔ (a ≡ b)
entry_beq_iff a b = ground (arith, value_beq_iff a.value b.value)

instance abbrev entry_eq : Eq DimEntryHeader
entry_eq = record { beq = entry_beq; beq_iff = entry_beq_iff }

abbrev dimension_beq : DimensionHeader → DimensionHeader → Bool
dimension_beq a b =
    (a.name == b.name) && (type_beq a.value_type b.value_type && (a.entries == b.entries))

dimension_beq_iff : (a b : DimensionHeader) → (dimension_beq a b ≡ true) ↔ (a ≡ b)
dimension_beq_iff a b = ground (
  arith,
  string_eq.beq_iff a.name b.name,
  type_beq_iff a.value_type b.value_type,
  (list_eq {A = DimEntryHeader}).beq_iff a.entries b.entries,
)

instance abbrev dimension_eq : Eq DimensionHeader
dimension_eq = record { beq = dimension_beq; beq_iff = dimension_beq_iff }

abbrev pub header_beq : IdxHeader → IdxHeader → Bool
header_beq a b =
    (a.stream == b.stream)
    && (eqb a.start_slot b.start_slot
        && (eqb a.end_slot b.end_slot
            && (eqb a.message_count b.message_count && (a.dimensions == b.dimensions))))

pub header_beq_iff : (a b : IdxHeader) → (header_beq a b ≡ true) ↔ (a ≡ b)
header_beq_iff a b = ground (
  arith,
  string_eq.beq_iff a.stream b.stream,
  (list_eq {A = DimensionHeader}).beq_iff a.dimensions b.dimensions,
)

unfoldable pub encode_one : IdxHeader → IdxHeader → Option (List ℕ)
encode_one known h = if header_beq known h then some (7 ∷ []) else none

pub encode_one-some :
    (known h : IdxHeader) (bs : List ℕ) → encode_one known h ≡ some bs → some known ≡ some h
unfolding encode_one
encode_one-some known h bs e = ground (arith, header_beq_iff known h)

abbrev pub codec_of : IdxHeader → HeaderCodec
codec_of known = record {
  to_vec_named = encode_one known;
  from_slice = λ bs. some known;
  from_slice-to_vec = encode_one-some known;
}

abbrev repeat : ℕ → ℕ → List ℕ
repeat zero n = []
repeat (suc k) n = n ∷ repeat k n

abbrev pub pk : ℕ → List ℕ
pk n = repeat 32 n

abbrev pub transaction_of : Bool → Option (List ℕ) → List (List ℕ) → SubscribeUpdate
transaction_of is_vote error keys = record {
  filters = [];
  update_oneof = some (
      UpdateOneof.transaction (record {
        slot = 5;
        transaction = some (record {
          signature = [];
          is_vote = is_vote;
          transaction =
              some (record { message = some (record { account_keys = keys; instructions = [] }) });
          meta = some (record {
            err = error;
            loaded_writable_addresses = [];
            loaded_readonly_addresses = [];
          });
        });
      }));
  created_at = none;
}

-- A vote that succeeds, and a transaction that fails.
abbrev pub two_transactions : List SubscribeUpdate
two_transactions =
    transaction_of true none (pk 1 ∷ []) ∷ transaction_of false (some []) (pk 1 ∷ pk 2 ∷ []) ∷ []

abbrev entry : DimValue → ℕ → ℕ → DimEntryHeader
entry v o n = record { value = v; offset = o; length = n }

abbrev dimension : String → DimValueType → List DimEntryHeader → DimensionHeader
dimension name ty es = record { name = name; value_type = ty; entries = es }

abbrev pub two_header : IdxHeader
two_header = record {
  stream = "tx";
  start_slot = 0;
  end_slot = 10;
  message_count = 2;
  dimensions =
      dimension dim_program_id pubkey32 []
      ∷ dimension dim_account_key pubkey32
          (entry (bytes (pk 1)) 0 2 ∷ entry (bytes (pk 2)) 2 1 ∷ [])
      ∷ dimension dim_signature signature64 []
      ∷ dimension dim_vote_flag DimValueType.bool (entry (DimValue.bool true) 3 1 ∷ [])
      ∷ dimension dim_failed_flag DimValueType.bool (entry (DimValue.bool true) 4 1 ∷ [])
      ∷ [];
}

abbrev pub two_file : List ℕ
two_file = idx_magic ++ (idx_version ∷ (to_le_bytes 1 ++ (7 ∷ 1 ∷ 0 ∷ 1 ∷ 0 ∷ 1 ∷ [])))

-- A chunk of one account of the owner that "B" spells.
abbrev pub one_account : List SubscribeUpdate
one_account =
    record {
      filters = [];
      update_oneof = some (
          UpdateOneof.account
            (record { slot = 5; account = some (record { pubkey = pk 1; owner = pk 2 }) }));
      created_at = none;
    }
    ∷ []

abbrev pub acct_header : IdxHeader
acct_header = record {
  stream = "acct";
  start_slot = 0;
  end_slot = 10;
  message_count = 1;
  dimensions =
      dimension dim_account_pubkey pubkey32 (entry (bytes (pk 1)) 0 1 ∷ [])
      ∷ dimension dim_owner_program pubkey32 (entry (bytes (pk 2)) 1 1 ∷ [])
      ∷ [];
}

abbrev pub acct_file : List ℕ
acct_file = idx_magic ++ (idx_version ∷ (to_le_bytes 1 ++ (7 ∷ 0 ∷ 0 ∷ [])))
