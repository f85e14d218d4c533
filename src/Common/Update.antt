-- ===== src/Common/Update.antt =====
-- The messages of yellowstone_grpc_proto that the crates exchange, with the fields that the source
-- reads, and sillage-common/src/slot.rs. The encoding of a message is a parameter of its users.
use sillage.Prelude.{ℕ, ℤ, String, Bool, Option, none, some, List}

pub record Timestamp : Type 0 where
  pub seconds : ℤ
  pub nanos : ℤ

pub record CompiledInstruction : Type 0 where
  pub program_id_index : ℕ

pub record Message : Type 0 where
  pub account_keys : List (List ℕ)
  pub instructions : List CompiledInstruction

pub record Transaction : Type 0 where
  pub message : Option Message

pub record TransactionStatusMeta : Type 0 where
  pub err : Option (List ℕ)
  pub loaded_writable_addresses : List (List ℕ)
  pub loaded_readonly_addresses : List (List ℕ)

pub record TransactionInfo : Type 0 where
  pub signature : List ℕ
  pub is_vote : Bool
  pub transaction : Option Transaction
  pub meta : Option TransactionStatusMeta

pub record UpdateTransaction : Type 0 where
  pub slot : ℕ
  pub transaction : Option TransactionInfo

pub record AccountInfo : Type 0 where
  pub pubkey : List ℕ
  pub owner : List ℕ

pub record UpdateAccount : Type 0 where
  pub slot : ℕ
  pub account : Option AccountInfo

pub record UpdateBlockMeta : Type 0 where
  pub slot : ℕ
  pub parent_slot : ℕ

-- `other` stands for the variants that the source does not look into.
pub data UpdateOneof : Type 0 where
  transaction : UpdateTransaction → UpdateOneof
  account : UpdateAccount → UpdateOneof
  block_meta : UpdateBlockMeta → UpdateOneof
  other : UpdateOneof

pub record SubscribeUpdate : Type 0 where
  pub filters : List String
  pub update_oneof : Option UpdateOneof
  pub created_at : Option Timestamp

slot_of : UpdateOneof → Option ℕ
slot_of (transaction t) = some t.slot
slot_of (account a) = some a.slot
slot_of (block_meta b) = some b.slot
slot_of other = none

unfoldable pub extract_slot : SubscribeUpdate → Option ℕ
unfolding slot_of
extract_slot update = elim update.update_oneof [ none ↦ none | some u ↦ slot_of u ]
