-- ===== src/Reader/Replay/Cursor.antt =====
-- `StreamCursor` of sillage-reader/src/replay.rs: the selected messages of a stream's chunks, one
-- after another.
--
-- `load` is what the chunk cache answers for a plan's chunk. The plans before `plan_idx` are not
-- kept but for the current one, which stands beside its decoded chunk and the ordinals that are
-- left.
use sillage.Prelude.{
  ℕ, Option, none, some, Bool, true, false, String, List, [], ◌∷◌, map, filterb, if◌then◌else◌,
  Result, ok, err, ◌>>=◌,
}
use sillage.Common.Update.{SubscribeUpdate, extract_slot}
use sillage.Common.Roaring.{Roaring}
use sillage.Common.Packages.{Packages}
use sillage.Reader.Decoded.{DecodedChunk, DecodeError, decode_message}
use sillage.Reader.Replay.{extract_recv_ns, unwrap_or}
use sillage.Reader.Replay.Plan.{ChunkPlan}
pub mod Feed

-- A message with its slot, the names of the filters that it passes, and its receipt time.
pub record Item : Type 0 where
  pub slot : ℕ
  pub update : SubscribeUpdate
  pub names : List String
  pub recv_ns : Option ℕ

module _ (R : Roaring) where
  pub record Current : Type 0 where
    pub plan : ChunkPlan R
    pub decoded : DecodedChunk
    pub ords : List ℕ

  pub record StreamCursor : Type 0 where
    pub plans : List (ChunkPlan R)
    pub current : Option Current
    pub peeked : Option Item

  -- `StreamCursor::new`.
  unfoldable pub new_cursor : List (ChunkPlan R) → StreamCursor
  new_cursor plans = record { plans = plans; current = none; peeked = none }

  module _ (P : Packages) (load : ChunkPlan R → Result DecodeError DecodedChunk) where
    -- The message of an ordinal.
    unfoldable pub item_at : ChunkPlan R → DecodedChunk → ℕ → Result DecodeError Item
    item_at plan decoded ord = do
      msg ← decode_message P decoded ord
      ok (record {
        slot = unwrap_or (extract_slot msg) 0;
        update = msg;
        names =
            map (λ (p : String × R.Bitmap). p.0)
              (filterb (λ (p : String × R.Bitmap). R.contains p.1 ord) plan.named_bitmaps);
        recv_ns = extract_recv_ns msg plan.entry.meta ord;
      })

    -- The next ordinal is decoded, and kept as the peeked message.
    unfoldable pub yield_ord :
        List (ChunkPlan R)
        → ChunkPlan R
        → DecodedChunk
        → ℕ
        → List ℕ
        → Result DecodeError StreamCursor
    yield_ord plans plan decoded ord ords = do
      item ← item_at plan decoded ord
      ok (record {
        plans = plans;
        current = some (record { plan = plan; decoded = decoded; ords = ords });
        peeked = some item;
      })

    -- The loop of `peek` where the ordinals are used up: to the next plan that selects a message.
    unfoldable pub next_plan : List (ChunkPlan R) → Result DecodeError StreamCursor
    next_plan [] = ok (record { plans = []; current = none; peeked = none })
    next_plan (plan ∷ plans) =
        let later = next_plan plans in
        if R.is_empty plan.selected then later else elim (load plan) [
          | err e ↦ err e
          | ok decoded ↦ elim (R.iter plan.selected) [
            | [] ↦ later
            | ord ∷ ords ↦ yield_ord plans plan decoded ord ords
          ]
        ]

    unfoldable pub peek_current :
        List (ChunkPlan R) → Option Current → Result DecodeError StreamCursor
    peek_current plans none = next_plan plans
    peek_current plans (some c) = elim c.ords [
      | [] ↦ next_plan plans
      | ord ∷ ords ↦ yield_ord plans c.plan c.decoded ord ords
    ]

    -- `StreamCursor::peek`: the cursor, with its next message as the peeked one.
    unfoldable pub peek : StreamCursor → Result DecodeError StreamCursor
    unfolding peek_current
    peek c = elim c.peeked [ some item ↦ ok c | none ↦ peek_current c.plans c.current ]

  -- `take_peeked`.
  unfoldable pub take_peeked : StreamCursor → Option Item × StreamCursor
  take_peeked c = (c.peeked, record c { peeked = none })
