-- ===== src/Common/Idx.antt =====
-- sillage-common/src/idx.rs: the header of an index file.
use sillage.Prelude.{
  ℕ, String, ◌≡◌, ◌↔◌, Bool, true, false, List, [], ◌∷◌, Eq, Ord, arith, ltb, eqb, list_beq,
  list_beq_iff, bytes_lt, bytes_lt_ne, bytes_lt_trans, bytes_lt_total, nat_eq, list_eq,
}

abbrev pub idx_magic : List ℕ
idx_magic = b'S' ∷ b'I' ∷ b'D' ∷ b'X' ∷ []

abbrev pub idx_version : ℕ
idx_version = 1

abbrev pub dim_program_id : String
dim_program_id = "program_id"

abbrev pub dim_account_key : String
dim_account_key = "account_key"

abbrev pub dim_signature : String
dim_signature = "signature"

abbrev pub dim_vote_flag : String
dim_vote_flag = "vote_flag"

abbrev pub dim_failed_flag : String
dim_failed_flag = "failed_flag"

abbrev pub dim_account_pubkey : String
dim_account_pubkey = "account_pubkey"

abbrev pub dim_owner_program : String
dim_owner_program = "owner_program"

abbrev pub dim_slot : String
dim_slot = "slot"

abbrev pub dim_parent_slot : String
dim_parent_slot = "parent_slot"

pub data DimValue : Type 0 where
  bytes : List ℕ → DimValue
  u64 : ℕ → DimValue
  bool : Bool → DimValue

pub data DimValueType : Type 0 where
  pubkey32 signature64 u64 bool : DimValueType

pub record DimEntryHeader : Type 0 where
  pub value : DimValue
  pub offset : ℕ
  pub length : ℕ

pub record DimensionHeader : Type 0 where
  pub name : String
  pub value_type : DimValueType
  pub entries : List DimEntryHeader

pub record IdxHeader : Type 0 where
  pub stream : String
  pub start_slot : ℕ
  pub end_slot : ℕ
  pub message_count : ℕ
  pub dimensions : List DimensionHeader

-- The derived `PartialEq` and `Ord`: by constructor first, then by the field.
abbrev pub value_beq : DimValue → DimValue → Bool
value_beq (bytes a) (bytes b) = list_beq a b
value_beq (DimValue.u64 a) (DimValue.u64 b) = eqb a b
value_beq (DimValue.bool true) (DimValue.bool b) = b
value_beq (DimValue.bool false) (DimValue.bool true) = false
value_beq (DimValue.bool false) (DimValue.bool false) = true
value_beq _ _ = false

pub value_beq_iff : (a b : DimValue) → (value_beq a b ≡ true) ↔ (a ≡ b)
value_beq_iff (bytes a) (bytes b) = ground (arith, list_beq_iff a b)
value_beq_iff _ _ = ground arith

instance abbrev pub value_eq : Eq DimValue
value_eq = record { beq = value_beq; beq_iff = value_beq_iff }

abbrev pub value_lt : DimValue → DimValue → Bool
value_lt (bytes a) (bytes b) = bytes_lt a b
value_lt (bytes a) _ = true
value_lt (DimValue.u64 a) (DimValue.u64 b) = ltb a b
value_lt (DimValue.u64 a) (DimValue.bool b) = true
value_lt (DimValue.bool false) (DimValue.bool b) = b
value_lt _ _ = false

pub value_lt_ne : (a b : DimValue) → value_lt a b ≡ true → value_beq a b ≡ false
value_lt_ne (bytes a) (bytes b) h = bytes_lt_ne a b h
value_lt_ne _ _ h = ground arith

pub value_lt_trans :
    (a b c : DimValue) → value_lt a b ≡ true → value_lt b c ≡ true → value_lt a c ≡ true
value_lt_trans (bytes a) (bytes b) (bytes c) h k = bytes_lt_trans a b c h k
value_lt_trans _ _ _ h k = ground arith

pub value_lt_total :
    (a b : DimValue) → value_beq a b ≡ false → value_lt a b ≡ false → value_lt b a ≡ true
value_lt_total (bytes a) (bytes b) h k = bytes_lt_total a b h k
value_lt_total _ _ h k = ground arith

instance abbrev pub value_ord : Ord DimValue
value_ord = record {
  lt = value_lt;
  lt_ne = value_lt_ne;
  lt_trans = value_lt_trans;
  lt_total = value_lt_total;
}
