-- ===== src/Writer/Index/Mentions.antt =====
-- What a message mentions: the dimensions and values under which the index should list it
-- (sillage-writer/src/index.rs, docs/format.md).
use sillage.Prelude.{
  ℕ, String, none, some, Bool, true, false, ◌&&◌, ◌||◌, List, eqb, length, get_elem?, string_eq,
  ◌==◌, anyb,
}
use sillage.Common.Stream.{Stream, tx, acct, block}
use sillage.Common.Idx.{
  DimValue, bytes, dim_program_id, dim_account_key, dim_signature, dim_vote_flag, dim_failed_flag,
  dim_account_pubkey, dim_owner_program, dim_slot, dim_parent_slot, value_eq, value_ord,
}
use sillage.Common.Update.{
  SubscribeUpdate, UpdateOneof, TransactionInfo, AccountInfo, CompiledInstruction,
}
use sillage.Writer.Index.{resolved_keys, instructions_of, has_err}

-- The pair (`dim`, `value`) that is asked for is this one.
abbrev pub asks : String → DimValue → String → DimValue → Bool
asks d v dim value = (dim == d) && (value == v)

-- An instruction's program is the asked key.
abbrev pub runs : String → DimValue → List (List ℕ) → CompiledInstruction → Bool
runs d v resolved ix = elim (get_elem? resolved ix.program_id_index) [
  | none ↦ false
  | some key ↦ eqb (length key) 32 && asks d v dim_program_id (bytes key)
]

-- A transaction is listed under the value `v` of the dimension `d`.
abbrev pub info_mentions : String → DimValue → TransactionInfo → Bool
info_mentions d v info =
    (eqb (length info.signature) 64 && asks d v dim_signature (bytes info.signature))
    || ((info.is_vote && asks d v dim_vote_flag (DimValue.bool true))
        || ((has_err info && asks d v dim_failed_flag (DimValue.bool true))
            || (anyb (λ key. eqb (length key) 32 && asks d v dim_account_key (bytes key))
                  (resolved_keys info)
                || anyb (runs d v (resolved_keys info)) (instructions_of info))))

abbrev pub account_mentions : String → DimValue → AccountInfo → Bool
account_mentions d v info =
    (eqb (length info.pubkey) 32 && asks d v dim_account_pubkey (bytes info.pubkey))
    || (eqb (length info.owner) 32 && asks d v dim_owner_program (bytes info.owner))

abbrev pub oneof_mentions : String → DimValue → UpdateOneof → Stream → Bool
oneof_mentions d v (UpdateOneof.transaction t) tx = elim t.transaction [
  | none ↦ false
  | some info ↦ info_mentions d v info
]
oneof_mentions d v (UpdateOneof.account a) acct = elim a.account [
  | none ↦ false
  | some info ↦ account_mentions d v info
]
oneof_mentions d v (UpdateOneof.block_meta m) block =
    asks d v dim_slot (DimValue.u64 m.slot) || asks d v dim_parent_slot (DimValue.u64 m.parent_slot)
oneof_mentions d v _ _ = false

abbrev pub mentions : String → DimValue → Stream → SubscribeUpdate → Bool
mentions d v s update = elim update.update_oneof [ none ↦ false | some u ↦ oneof_mentions d v u s ]
