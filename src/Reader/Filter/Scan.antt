-- ===== src/Reader/Filter/Scan.antt =====
-- From the messages of a chunk to the answer of a filter: the writer's index, its file, the
-- reader's parse and its bitmaps (sillage-writer/src/index.rs, sillage-reader/src/index.rs,
-- sillage-reader/src/filter.rs) against a scan of the messages.
use mathlib.Core.Path.{fun_ext}
use mathlib.Core.Bool.{◌&&◌}
use sillage.Prelude.{
  ℕ, ◌%◌, ◌<◌, ◌≡◌, refl, String, Option, none, some, Bool, false, List, [], ◌∷◌, ltb, eqb, length,
  get_elem?, ok, Result, u32_mod, arith, inl, inr, Option-cases, Bool-cases, anyb, ap, ◌∙◌, lookup,
  string_eq, ◌==◌,
}
use sillage.Common.Stream.{Stream, tx, acct, block}
use sillage.Common.Idx.{DimValue, bytes, dim_program_id, dim_account_key, value_eq}
use sillage.Common.Update.{SubscribeUpdate, UpdateOneof, TransactionInfo, CompiledInstruction}
use sillage.Common.Roaring.{Roaring}
use sillage.Writer.Index.{
  IndexBuilder, SerializeError, for_stream, serialize_index, dims_of_stream, resolved_keys,
  instructions_of,
}
use sillage.Common.Packages.{HeaderCodec}
use sillage.Writer.Index.Mentions.{asks, runs, info_mentions, oneof_mentions}
use sillage.Writer.Index.Observe.{bit}
use sillage.Writer.Index.Ordinals.{
  observe_all, registered, mentions?, observe_all-for_stream, observe_all-for_stream-IsWf,
}
use sillage.Reader.Index.{ChunkIndex, parse_chunk_index, message_count, bitmap_for}
use sillage.Reader.Index.RoundTrip.{stored, bitmap_for-serialize}
use sillage.Reader.Filter.{
  FilterTransactions, FilterAccounts, Base58, or_empty, filter_tx, filter_acct,
}
use sillage.Reader.Filter.Passes.{
  View, tx_passes, acct_passes, listed, filter_tx-contains, filter_acct-contains,
}

anyb-false {ℓ} :
    {A : Type ℓ} (p : A → Bool) (xs : List A) → ((x : A) → p x ≡ false) → anyb p xs ≡ false
anyb-false p [] h = refl
anyb-false p (x ∷ xs) h = ground (arith, h x, anyb-false p xs h)

runs-false :
    (d : String) (v : DimValue) (resolved : List (List ℕ)) (ix : CompiledInstruction)
    → (dim_program_id == d) ≡ false
    → runs d v resolved ix ≡ false
runs-false d v resolved ix h = ground arith

info_mentions-unregistered :
    (d : String) (v : DimValue) (info : TransactionInfo)
    → registered tx d ≡ false
    → info_mentions d v info ≡ false
unfolding dims_of_stream
info_mentions-unregistered d v info h =
    let program : (dim_program_id == d) ≡ false = ground arith in
    let account : (dim_account_key == d) ≡ false = ground arith in
    let keys =
      anyb-false (λ key. eqb (length key) 32 && asks d v dim_account_key (bytes key))
        (resolved_keys info) (λ key. ground arith) in
    let programs =
      anyb-false (runs d v (resolved_keys info)) (instructions_of info)
        (λ ix. runs-false d v (resolved_keys info) ix program) in
    ground (arith, keys, programs)

oneof_mentions-unregistered :
    (d : String) (v : DimValue) (s : Stream) (u : UpdateOneof)
    → registered s d ≡ false
    → oneof_mentions d v u s ≡ false
unfolding dims_of_stream
oneof_mentions-unregistered d v tx (UpdateOneof.transaction t) h =
    elim (Option-cases t.transaction) [
      | inl e ↦ rw (e, oneof_mentions)
      | inr (info, e) ↦ rw (e, oneof_mentions) (info_mentions-unregistered d v info h)
    ]
oneof_mentions-unregistered d v acct (UpdateOneof.account a) h = elim (Option-cases a.account) [
  | inl e ↦ rw (e, oneof_mentions)
  | inr (info, e) ↦ rw (e, oneof_mentions) (ground arith)
]
oneof_mentions-unregistered d v block (UpdateOneof.block_meta m) h = ground arith
oneof_mentions-unregistered d v _ _ h = refl

-- A message mentions no dimension that its stream does not register.
mentions?-registered :
    (d : String) (v : DimValue) (s : Stream) (o : Option SubscribeUpdate)
    → (registered s d && mentions? d v s o) ≡ mentions? d v s o
mentions?-registered d v s none = ground arith
mentions?-registered d v s (some u) = elim (Bool-cases (registered s d)) [
  | inl e ↦ rw e
  | inr e ↦ elim (Option-cases u.update_oneof) [
    | inl e' ↦ ground (arith, e')
    | inr (x, e') ↦ ground (arith, e, e', oneof_mentions-unregistered d v s x e)
  ]
]

-- What a scan sees of the message at the ordinal `n`, if there is one.
abbrev pub scanned : Stream → List SubscribeUpdate → ℕ → View
scanned s us n = λ d v. mentions? d v s (get_elem? us n)

-- The index file of the chunk that the messages make.
abbrev pub index_file :
    (R : Roaring)
    → HeaderCodec
    → Stream
    → List SubscribeUpdate
    → ℕ
    → ℕ
    → Result SerializeError (List ℕ)
index_file R codec s us start_slot end_slot =
    serialize_index R codec (observe_all R 0 us (for_stream R s)) start_slot end_slot (length us)

contains-stored :
    (R : Roaring) (decode : Base58) (b : IndexBuilder R) (d : String) (v : DimValue) (n : ℕ)
    → R.contains (or_empty R decode (ok (stored R b d v))) n ≡ bit R b d v n
unfolding or_empty
contains-stored R decode b d v n = elim (Option-cases (lookup d b.dims)) [
  | inl e ↦ rw (e, stored, bit) (R.contains-empty n)
  | inr (m, e) ↦ elim (Option-cases (lookup v m)) [
    | inl e' ↦ rw (e, stored, bit, e') (R.contains-empty n)
    | inr (bm, e') ↦ rw (e, stored, bit, e')
  ]
]

module _ (R : Roaring) (codec : HeaderCodec) (decode : Base58) (s : Stream)
    (us : List SubscribeUpdate) (start_slot end_slot : ℕ) (raw : List ℕ)
    (written : index_file R codec s us start_slot end_slot ≡ ok raw) (small : length raw < u32_mod)
    (few : length us < u32_mod) where
  -- The reader's view of an ordinal is the scan's.
  listed-scanned :
      (idx : ChunkIndex) (n : ℕ)
      → ((d : String) (v : DimValue)
          → bitmap_for R idx d v ≡ ok (stored R (observe_all R 0 us (for_stream R s)) d v))
      → listed R decode idx n ≡ scanned s us n
  unfolding or_empty
  listed-scanned idx n found = fun_ext λ d. fun_ext λ v.
      rw (listed, found d v)
        (contains-stored R decode (observe_all R 0 us (for_stream R s)) d v n
          ∙ observe_all-for_stream R s us d v n few
          ∙ mentions?-registered d v s (get_elem? us n))

  -- The file parses, and the view of every ordinal is the scan's.
  parsed-scanned :
      (idx : ChunkIndex) × (parse_chunk_index codec (some raw) ≡ ok idx)
      × (message_count idx ≡ length us)
      × ((n : ℕ) → listed R decode idx n ≡ scanned s us n)
  parsed-scanned =
      let (idx, parsed, count, found) =
        bitmap_for-serialize R codec (observe_all R 0 us (for_stream R s)) start_slot end_slot
          (length us) raw (observe_all-for_stream-IsWf R s us) written small in
      (idx, parsed, count, λ n. listed-scanned idx n found)

-- A transaction filter answered through the index file of a chunk selects exactly the ordinals
-- whose message a scan finds to pass the filter, for fewer than 2 ^ 32 messages and a file below
-- 4 GiB: indexing, writing, parsing and the bitmap algebra lose nothing and add nothing.
pub filter_tx-scan :
    (R : Roaring) (codec : HeaderCodec) (decode : Base58) (us : List SubscribeUpdate)
    (start_slot end_slot : ℕ) (raw : List ℕ) (f : FilterTransactions)
    → index_file R codec tx us start_slot end_slot ≡ ok raw
    → length raw < u32_mod
    → length us < u32_mod
    → (idx : ChunkIndex) × (parse_chunk_index codec (some raw) ≡ ok idx)
      × ((n : ℕ)
          → R.contains (filter_tx R decode idx f) n
            ≡ (ltb n (length us) && tx_passes decode (scanned tx us n) f))
filter_tx-scan R codec decode us start_slot end_slot raw f written small few =
    let (idx, parsed, count, view) =
      parsed-scanned R codec decode tx us start_slot end_slot raw written small few in
    let full : message_count idx % u32_mod ≡ length us = omega (arith, count) in
    (
      idx,
      parsed,
      λ n.
          filter_tx-contains R decode idx n f
          ∙ ap (λ k. ltb n k && tx_passes decode (listed R decode idx n) f) full
          ∙ ap (λ w. ltb n (length us) && tx_passes decode w f) (view n),
    )

-- An account filter answered through the index file of a chunk of account updates selects exactly
-- the ordinals whose message a scan finds to pass the filter, for fewer than 2 ^ 32 messages and a
-- file below 4 GiB.
pub filter_acct-scan :
    (R : Roaring) (codec : HeaderCodec) (decode : Base58) (us : List SubscribeUpdate)
    (start_slot end_slot : ℕ) (raw : List ℕ) (f : FilterAccounts)
    → index_file R codec acct us start_slot end_slot ≡ ok raw
    → length raw < u32_mod
    → length us < u32_mod
    → (idx : ChunkIndex) × (parse_chunk_index codec (some raw) ≡ ok idx)
      × ((n : ℕ)
          → R.contains (filter_acct R decode idx f) n
            ≡ (ltb n (length us) && acct_passes decode (scanned acct us n) f))
filter_acct-scan R codec decode us start_slot end_slot raw f written small few =
    let (idx, parsed, count, view) =
      parsed-scanned R codec decode acct us start_slot end_slot raw written small few in
    let full : message_count idx % u32_mod ≡ length us = omega (arith, count) in
    (
      idx,
      parsed,
      λ n.
          filter_acct-contains R decode idx n f
          ∙ ap (λ k. ltb n k && acct_passes decode (listed R decode idx n) f) full
          ∙ ap (λ w. ltb n (length us) && acct_passes decode w f) (view n),
    )
