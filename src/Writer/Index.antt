-- ===== src/Writer/Index.antt =====
-- sillage-writer/src/index.rs: the index of a chunk, built message by message.
pub mod Mentions
pub mod Observe
pub mod Ordinals
use sillage.Prelude.{
  ℕ, ◌+◌, ◌-◌, ◌%◌, ◌≡◌, String, Option, none, some, Bool, true, false, List, [], ◌∷◌, ◌++◌, map,
  eqb, if◌then◌else◌, length, get_elem?, Result, ok, err, ◌>>=◌, or_fail, lookup, insert,
  insert_sorted, u32_mod, to_le_bytes, string_eq,
}
use sillage.Common.Stream.{Stream, tx, acct, block, as_str}
use sillage.Common.Idx.{
  DimValue, bytes, DimValueType, pubkey32, signature64, DimEntryHeader, DimensionHeader, IdxHeader,
  idx_magic, idx_version, dim_program_id, dim_account_key, dim_signature, dim_vote_flag,
  dim_failed_flag, dim_account_pubkey, dim_owner_program, dim_slot, dim_parent_slot, value_eq,
  value_ord,
}
use sillage.Common.Update.{
  SubscribeUpdate, UpdateOneof, UpdateTransaction, UpdateAccount, UpdateBlockMeta, TransactionInfo,
  AccountInfo, CompiledInstruction,
}
use sillage.Common.Roaring.{Roaring}
use sillage.Common.Packages.{HeaderCodec}

-- The dimensions that `for_stream` registers, in its order.
unfoldable pub dims_of_stream : Stream → List (String × DimValueType)
dims_of_stream tx =
    (dim_program_id, pubkey32)
    ∷ (dim_account_key, pubkey32)
    ∷ (dim_signature, signature64)
    ∷ (dim_vote_flag, DimValueType.bool)
    ∷ (dim_failed_flag, DimValueType.bool)
    ∷ []
dims_of_stream acct = (dim_account_pubkey, pubkey32) ∷ (dim_owner_program, pubkey32) ∷ []
dims_of_stream block = (dim_slot, DimValueType.u64) ∷ (dim_parent_slot, DimValueType.u64) ∷ []

-- Static keys, then the loaded writable ones, then the loaded read-only ones.
unfoldable pub resolved_keys : TransactionInfo → List (List ℕ)
resolved_keys info =
    let static_keys : List (List ℕ) = elim info.transaction [
      | none ↦ []
      | some t ↦ elim t.message [ none ↦ [] | some m ↦ m.account_keys ]
    ] in
    let loaded : List (List ℕ) = elim info.meta [
      | none ↦ []
      | some m ↦ m.loaded_writable_addresses ++ m.loaded_readonly_addresses
    ] in
    static_keys ++ loaded

unfoldable pub instructions_of : TransactionInfo → List CompiledInstruction
instructions_of info = elim info.transaction [
  | none ↦ []
  | some t ↦ elim t.message [ none ↦ [] | some m ↦ m.instructions ]
]

-- `info.meta.as_ref().and_then(|m| m.err.as_ref()).is_some()`.
unfoldable pub has_err : TransactionInfo → Bool
has_err info = elim info.meta [
  | none ↦ false
  | some m ↦ elim m.err [ none ↦ false | some e ↦ true ]
]

-- A failure of `serialize`; `missing_dim` stands for the panics of the two `expect`s.
pub data SerializeError : Type 0 where
  missing_dim header_encoding : SerializeError

module _ (R : Roaring) where
  open R use {Bitmap, empty, insert_bit, serialize}

  -- A dimension's map from values to the ordinals of the messages that have them.
  abbrev pub DimMap : Type 0
  DimMap = List (DimValue × Bitmap)

  pub record IndexBuilder : Type 0 where
    pub stream : Stream
    pub dims : List (String × DimMap)
    pub dim_types : List (String × DimValueType)
    pub order : List String

  register : IndexBuilder → List (String × DimValueType) → IndexBuilder
  register b [] = b
  register b ((name, ty) ∷ rest) =
      register
        (record b {
          dims = insert name [] b.dims;
          dim_types = insert name ty b.dim_types;
          order = b.order ++ name ∷ [];
        })
        rest

  unfoldable pub for_stream : Stream → IndexBuilder
  unfolding register dims_of_stream
  for_stream s =
      register (record { stream = s; dims = []; dim_types = []; order = [] }) (dims_of_stream s)

  unfoldable pub dimension_names : IndexBuilder → List String
  dimension_names b = b.order

  -- The bitmap of `value` with `offset` added, `or_insert_with(RoaringBitmap::new)`.
  add_offset : DimValue → ℕ → DimMap → DimMap
  add_offset value offset m =
      insert_sorted value
        (insert_bit offset (elim (lookup value m) [ none ↦ empty | some bm ↦ bm ])) m

  -- `IndexBuilder::insert`: an unknown dimension is ignored.
  insert_value : String → DimValue → ℕ → IndexBuilder → IndexBuilder
  unfolding add_offset
  insert_value dim value offset b = elim (lookup dim b.dims) [
    | none ↦ b
    | some m ↦ record b { dims = insert dim (add_offset value offset m) b.dims }
  ]

  insert_if : Bool → String → DimValue → ℕ → IndexBuilder → IndexBuilder
  insert_if c dim value offset b = if c then insert_value dim value offset b else b

  -- The loop over the resolved keys.
  insert_keys : ℕ → List (List ℕ) → IndexBuilder → IndexBuilder
  insert_keys offset [] b = b
  insert_keys offset (key ∷ keys) b =
      insert_keys offset keys (insert_if (eqb (length key) 32) dim_account_key (bytes key) offset b)

  -- One top-level instruction: its program is the resolved key at `program_id_index`.
  insert_program : ℕ → List (List ℕ) → CompiledInstruction → IndexBuilder → IndexBuilder
  insert_program offset resolved ix b = elim (get_elem? resolved ix.program_id_index) [
    | none ↦ b
    | some key ↦ insert_if (eqb (length key) 32) dim_program_id (bytes key) offset b
  ]

  insert_programs : ℕ → List (List ℕ) → List CompiledInstruction → IndexBuilder → IndexBuilder
  insert_programs offset resolved [] b = b
  insert_programs offset resolved (ix ∷ ixs) b =
      insert_programs offset resolved ixs (insert_program offset resolved ix b)

  observe_info : ℕ → TransactionInfo → IndexBuilder → IndexBuilder
  observe_info offset info b =
      let resolved = resolved_keys info in
      let b1 =
        insert_if (eqb (length info.signature) 64) dim_signature (bytes info.signature) offset b in
      let b2 = insert_if info.is_vote dim_vote_flag (DimValue.bool true) offset b1 in
      let b3 = insert_if (has_err info) dim_failed_flag (DimValue.bool true) offset b2 in
      let b4 = insert_keys offset resolved b3 in
      insert_programs offset resolved (instructions_of info) b4

  observe_tx : ℕ → UpdateTransaction → IndexBuilder → IndexBuilder
  observe_tx offset update b = elim update.transaction [
    | none ↦ b
    | some info ↦ observe_info offset info b
  ]

  observe_account_info : ℕ → AccountInfo → IndexBuilder → IndexBuilder
  observe_account_info offset info b =
      insert_if (eqb (length info.owner) 32) dim_owner_program (bytes info.owner) offset
        (insert_if (eqb (length info.pubkey) 32) dim_account_pubkey (bytes info.pubkey) offset b)

  observe_acct : ℕ → UpdateAccount → IndexBuilder → IndexBuilder
  observe_acct offset update b = elim update.account [
    | none ↦ b
    | some info ↦ observe_account_info offset info b
  ]

  observe_block : ℕ → UpdateBlockMeta → IndexBuilder → IndexBuilder
  observe_block offset update b =
      insert_value dim_parent_slot (DimValue.u64 update.parent_slot) offset
        (insert_value dim_slot (DimValue.u64 update.slot) offset b)

  -- The `match (update.update_oneof, self.stream)` of `observe`.
  observe_oneof : ℕ → UpdateOneof → Stream → IndexBuilder → IndexBuilder
  observe_oneof offset (UpdateOneof.transaction t) tx b = observe_tx offset t b
  observe_oneof offset (UpdateOneof.account a) acct b = observe_acct offset a b
  observe_oneof offset (UpdateOneof.block_meta m) block b = observe_block offset m b
  observe_oneof offset _ _ b = b

  unfoldable pub observe : ℕ → SubscribeUpdate → IndexBuilder → IndexBuilder
  unfolding observe_oneof observe_tx observe_info observe_acct observe_account_info observe_block
      insert_value insert_if insert_keys insert_program insert_programs resolved_keys
      instructions_of has_err
  observe offset update b = elim update.update_oneof [
    | none ↦ b
    | some u ↦ observe_oneof offset u b.stream b
  ]

  -- One dimension: the bitmaps are appended to the body, with an entry for each.
  unfoldable pub serialize_map : DimMap → List ℕ → List ℕ × List DimEntryHeader
  serialize_map [] body = (body, [])
  serialize_map ((value, bitmap) ∷ m) body =
      let body' = body ++ serialize bitmap in
      let entry : DimEntryHeader = record {
        value = value;
        offset = length body;
        length = length body' - length body;
      } in
      let rest = serialize_map m body' in (rest.0, entry ∷ rest.1)

  unfoldable pub serialize_dims :
      IndexBuilder → List String → List ℕ → Result SerializeError (List ℕ × List DimensionHeader)
  serialize_dims b [] body = ok (body, [])
  serialize_dims b (name ∷ names) body = do
    m ← or_fail (lookup name b.dims) missing_dim
    ty ← or_fail (lookup name b.dim_types) missing_dim
    rest ← serialize_dims b names (serialize_map m body).0
    ok (
      rest.0,
      record { name = name; value_type = ty; entries = (serialize_map m body).1 } ∷ rest.1,
    )

  unfoldable pub header_of : IndexBuilder → ℕ → ℕ → ℕ → List DimensionHeader → IdxHeader
  header_of b start_slot end_slot message_count dimensions = record {
    stream = as_str b.stream;
    start_slot = start_slot;
    end_slot = end_slot;
    message_count = message_count;
    dimensions = dimensions;
  }

  -- The file: magic, version, the header's length in four bytes, the header, the body.
  unfoldable pub serialize_index :
      HeaderCodec → IndexBuilder → ℕ → ℕ → ℕ → Result SerializeError (List ℕ)
  unfolding serialize_dims serialize_map header_of
  serialize_index codec b start_slot end_slot message_count = do
    (body, dimensions) ← serialize_dims b b.order []
    header_bytes ←
        or_fail (codec.to_vec_named (header_of b start_slot end_slot message_count dimensions))
          header_encoding
    ok (
        idx_magic
        ++ (idx_version ∷ (to_le_bytes (length header_bytes % u32_mod) ++ (header_bytes ++ body))))
