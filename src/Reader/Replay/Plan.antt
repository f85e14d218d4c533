-- ===== src/Reader/Replay/Plan.antt =====
-- `plan_replay` of sillage-reader/src/replay.rs: the range of slots of a replay, and the messages
-- of every chunk that pass a filter.
--
-- `index_of` is what the index cache answers for a chunk, an error where the file does not parse.
use sillage.Prelude.{
  ℕ, min, Option, none, some, Bool, true, false, String, List, [], ◌∷◌, map, ltb, if◌then◌else◌,
  Result, ok, err, ◌>>=◌,
}
use sillage.Common.Stream.{Stream, tx, acct, block, all_streams}
use sillage.Common.Roaring.{Roaring}
use sillage.Reader.Index.{ChunkIndex, IndexError}
use sillage.Reader.Filter.{Base58, filter_tx, filter_acct, filter_block}
use sillage.Reader.Catalog.{
  ChunkEntry, ChunkCatalog, StreamSummary, summary, newest_end_slot, chunks_in_range,
}
use sillage.Reader.Subscription.{SubscriptionFilters, has_stream}
use sillage.Reader.Replay.{unwrap_or}
pub mod Selection
pub mod Scanned
pub mod Trees
pub mod Covering

pub data PlanError : Type 0 where
  from_slot_too_old : (requested first_available : ℕ) → PlanError
  no_chunks_available : PlanError
  other : IndexError → PlanError

abbrev pub min_opt : Option ℕ → Option ℕ → Option ℕ
min_opt none b = b
min_opt (some a) none = some a
min_opt (some a) (some b) = some (min a b)

-- The oldest slot of the streams that the subscription asks for.
unfoldable pub oldest_slot : SubscriptionFilters → List StreamSummary → Option ℕ
oldest_slot parsed [] = none
oldest_slot parsed (r ∷ rs) =
    let rest = oldest_slot parsed rs in
    if has_stream r.stream parsed then min_opt r.min_start rest else rest

-- The first slot of the replay.
unfoldable pub start_slot_of : Option ℕ → Option ℕ → Result PlanError ℕ
start_slot_of none explicit = err no_chunks_available
start_slot_of (some first) none = ok first
start_slot_of (some first) (some requested) =
    if ltb requested first then err (from_slot_too_old requested first) else ok requested

module _ (R : Roaring) where
  open R use {Bitmap, empty, union}

  pub record ChunkPlan : Type 0 where
    pub stream : Stream
    pub entry : ChunkEntry
    pub named_bitmaps : List (String × Bitmap)
    pub selected : Bitmap
    pub chunk_recv_ns_first : Option ℕ

  pub record ReplayPlan : Type 0 where
    pub from_slot : ℕ
    pub to_slot_exclusive : ℕ
    pub plans_tx : List ChunkPlan
    pub plans_acct : List ChunkPlan
    pub plans_block : List ChunkPlan

  -- `fold(RoaringBitmap::new(), |acc, (_, b)| acc | b)`.
  unfoldable pub union_all : List (String × Bitmap) → Bitmap → Bitmap
  union_all [] acc = acc
  union_all ((name, b) ∷ bs) acc = union_all bs (union acc b)

  module _ (decode : Base58) where
    unfoldable pub named_bitmaps_of :
        Stream → SubscriptionFilters → ChunkIndex → List (String × Bitmap)
    named_bitmaps_of tx parsed idx =
        map (λ p. (p.0, filter_tx R decode idx p.1)) parsed.transactions
    named_bitmaps_of acct parsed idx =
        map (λ p. (p.0, filter_acct R decode idx p.1)) parsed.accounts
    named_bitmaps_of block parsed idx =
        map (λ p. (p.0, filter_block R decode idx p.1)) parsed.blocks_meta

    unfoldable pub plan_chunk : Stream → SubscriptionFilters → ChunkEntry → ChunkIndex → ChunkPlan
    unfolding named_bitmaps_of union_all
    plan_chunk s parsed entry idx =
        let named = named_bitmaps_of s parsed idx in
        record {
          stream = s;
          entry = entry;
          named_bitmaps = named;
          selected = union_all named empty;
          chunk_recv_ns_first = entry.meta.recv_ns_first;
        }

    module _ (index_of : Stream → ChunkEntry → Result IndexError ChunkIndex) where
      -- The loop over the chunks of a stream; the first index that fails ends the planning.
      unfoldable pub plan_chunks :
          Stream → SubscriptionFilters → List ChunkEntry → Result PlanError (List ChunkPlan)
      plan_chunks s parsed [] = ok []
      plan_chunks s parsed (entry ∷ entries) = elim (index_of s entry) [
        | err e ↦ err (other e)
        | ok idx ↦ do rest ← plan_chunks s parsed entries; ok (plan_chunk s parsed entry idx ∷ rest)
      ]

      -- A stream that was not asked for has no plan.
      unfoldable pub plan_stream :
          Stream → SubscriptionFilters → ChunkCatalog → ℕ → ℕ → Result PlanError (List ChunkPlan)
      unfolding plan_chunks
      plan_stream s parsed catalog from_slot to_slot =
          if has_stream s parsed
          then plan_chunks s parsed (chunks_in_range catalog s from_slot to_slot)
          else ok []

      unfoldable pub plan_replay :
          ChunkCatalog → SubscriptionFilters → Option ℕ → Result PlanError ReplayPlan
      unfolding plan_stream start_slot_of
      plan_replay catalog parsed explicit = do
        let to_slot = unwrap_or (newest_end_slot catalog) 0
        from_slot ← start_slot_of (oldest_slot parsed (summary catalog)) explicit
        plans_tx ← plan_stream tx parsed catalog from_slot to_slot
        plans_acct ← plan_stream acct parsed catalog from_slot to_slot
        plans_block ← plan_stream block parsed catalog from_slot to_slot
        ok (record {
          from_slot = from_slot;
          to_slot_exclusive = to_slot;
          plans_tx = plans_tx;
          plans_acct = plans_acct;
          plans_block = plans_block;
        })
