-- ===== src/Tests/Planning.antt =====
-- The plan of a replay of all transactions.
use sillage.Prelude.{
  All, Ascending, arith, ℕ, ◌≤◌, nat_eq, nat_ord, ◌≡◌, refl, none, some, [], ◌∷◌, Result, ok,
  lookup,
}
use sillage.Common.Stream.{Stream, tx, acct, block}
use sillage.Reader.Index.{ChunkIndex, IndexError}
use sillage.Reader.Filter.{Base58}
use sillage.Reader.Catalog.{
  ChunkEntry, ChunkCatalog, tree_of, summary, newest_end_slot, chunks_in_range,
}
use sillage.Reader.Subscription.{SubscriptionFilters, has_stream}
use sillage.Reader.Replay.Plan.{
  ReplayPlan, oldest_slot, start_slot_of, plan_chunk, plan_chunks, plan_stream, plan_replay,
}
use sillage.Reader.Replay.Plan.Trees.{Nonempty}
use sillage.Reader.Replay.Plan.Covering.{Covers, plan_replay-Covers}
use sillage.Reader.Service.{first_available_slot}
use sillage.Reader.Service.Floor.{plan_replay-announced}
use sillage.Tests.Bitmaps.{list_bitmaps}
use sillage.Tests.Codec.{two_header}
use sillage.Tests.Packaged.{two_meta}

abbrev pub no_base58 : Base58
no_base58 s = none

abbrev pub everything : SubscriptionFilters
everything = record {
  transactions =
      (
        "all",
        record {
          vote = none;
          failed = none;
          signature = none;
          account_include = [];
          account_required = [];
          account_exclude = [];
        },
      )
      ∷ [];
  accounts = [];
  blocks_meta = [];
  from_slot = none;
}

abbrev two_index : ChunkIndex
two_index = record { raw = []; header = two_header; table = []; body_start = 0 }

abbrev two_entry : ChunkEntry
two_entry = record {
  stream = tx;
  start_slot = 0;
  end_slot_exclusive = 10;
  zst_len = 10;
  meta = two_meta;
}

abbrev pub one_catalog : ChunkCatalog
one_catalog = (tx, (0, two_entry) ∷ []) ∷ []

abbrev pub always_two : Stream → ChunkEntry → Result IndexError ChunkIndex
always_two s e = ok two_index

abbrev pub whole_plan : ReplayPlan list_bitmaps
whole_plan = record {
  from_slot = 0;
  to_slot_exclusive = 10;
  plans_tx = plan_chunk list_bitmaps no_base58 tx everything two_entry two_index ∷ [];
  plans_acct = [];
  plans_block = [];
}

one_catalog-kept :
    (s : Stream) → Ascending (tree_of one_catalog s) × All Nonempty (tree_of one_catalog s)
unfolding tree_of lookup
one_catalog-kept tx = ((tt, tt), (omega arith, tt))
one_catalog-kept acct = (tt, tt)
one_catalog-kept block = (tt, tt)

plan_replay-Covers_example :
    Covers one_catalog everything one_catalog-kept list_bitmaps no_base58 always_two none whole_plan
unfolding plan_replay plan_stream plan_chunks oldest_slot start_slot_of summary newest_end_slot
    chunks_in_range has_stream lookup
plan_replay-Covers_example =
    plan_replay-Covers one_catalog everything one_catalog-kept list_bitmaps no_base58 always_two
      none whole_plan refl

plan_replay-announced_example :
    (a : ℕ) × (first_available_slot one_catalog ≡ some a) × (a ≤ whole_plan.from_slot)
unfolding plan_replay plan_stream plan_chunks oldest_slot start_slot_of summary newest_end_slot
    chunks_in_range has_stream lookup
plan_replay-announced_example =
    plan_replay-announced list_bitmaps no_base58 always_two one_catalog everything none whole_plan
      refl
