-- ===== src/Reader/Replay/Plan/Covering.antt =====
-- Which chunks `plan_replay` of sillage-reader/src/replay.rs plans, told from the catalog's trees.
use mathlib.Core.Bool.{◌||◌, not}
use sillage.Prelude.{
  ℕ, ◌≤◌, ◌≡◌, refl, sym, ap, ◌∙◌, subst, Option, some, Bool, true, List, [], ◌∷◌, map, leb,
  if◌then◌else◌, Result, ok, arith, All, lookup, Ascending, Bool-cases, Option-cases, inl, inr,
  nat_eq, nat_ord,
}
use sillage.Common.Stream.{Stream, tx, acct, block, all_streams, stream_eq}
use sillage.Common.Roaring.{Roaring}
use sillage.Reader.Index.{ChunkIndex, IndexError}
use sillage.Reader.Filter.{Base58}
use sillage.Reader.Catalog.{
  ChunkEntry, ChunkCatalog, Tree, tree_of, first_key, last_end, max_opt, summary_of, summary,
  newest_of, newest_end_slot, chunks_in_range,
}
use sillage.Reader.Catalog.Ranges.{range_to-overlaps}
use sillage.Reader.Subscription.{SubscriptionFilters, has_stream}
use sillage.Reader.Replay.{unwrap_or}
use sillage.Reader.Replay.Plan.{ChunkPlan, ReplayPlan, min_opt, oldest_slot, plan_replay}
use sillage.Reader.Replay.Plan.Selection.{plan_replay-Planned, chunks_of}
use sillage.Reader.Replay.Plan.Trees.{
  Nonempty, Below, last_end-Below, Below-le, ending_after, overlaps-all, max_opt-le, From, From-min,
  From-min_right, first_key-From, starts_at, first_key-starts_at, min_opt-some,
}

module _ (catalog : ChunkCatalog) (parsed : SubscriptionFilters)
    (kept : (s : Stream) → Ascending (tree_of catalog s) × All Nonempty (tree_of catalog s)) where
  newest-cons :
      (s : Stream) (ss : List Stream)
      → newest_of (summary_of catalog (s ∷ ss))
        ≡ max_opt (last_end (tree_of catalog s)) (newest_of (summary_of catalog ss))
  unfolding newest_of summary_of tree_of last_end
  newest-cons s ss = elim (Option-cases (lookup s catalog)) [
    | inl q ↦ rw (newest_of, summary_of, tree_of, q) refl
    | inr (t, q) ↦ rw (newest_of, summary_of, tree_of, q) refl
  ]

  oldest-cons :
      (s : Stream) (ss : List Stream)
      → oldest_slot parsed (summary_of catalog (s ∷ ss)) ≡ (
          if has_stream s parsed
          then min_opt (first_key (tree_of catalog s)) (oldest_slot parsed (summary_of catalog ss))
          else oldest_slot parsed (summary_of catalog ss))
  unfolding oldest_slot summary_of tree_of
  oldest-cons s ss = elim (Option-cases (lookup s catalog)) [
    | inl q ↦ elim (Bool-cases (has_stream s parsed)) [
      | inl k ↦ rw (oldest_slot, summary_of, tree_of, q, k) refl
      | inr k ↦ rw (oldest_slot, summary_of, tree_of, q, k) refl
    ]
    | inr (t, q) ↦ rw (oldest_slot, summary_of, tree_of, q) refl
  ]

  -- Every chunk of the catalog starts below the end to which a replay reads.
  newest_of-Below :
      (s : Stream) (ss : List Stream)
      → Below (unwrap_or (newest_of (summary_of catalog (s ∷ ss))) 0) (tree_of catalog s)
  newest_of-Below s ss =
      Below-le (unwrap_or (last_end (tree_of catalog s)) 0) _ (tree_of catalog s)
        (rw (newest-cons s ss)
          (max_opt-le (last_end (tree_of catalog s)) (newest_of (summary_of catalog ss))).0)
        (last_end-Below (tree_of catalog s) (kept s).0 (kept s).1)

  newest_of-later :
      (s : Stream) (ss : List Stream) (t : Tree)
      → Below (unwrap_or (newest_of (summary_of catalog ss)) 0) t
      → Below (unwrap_or (newest_of (summary_of catalog (s ∷ ss))) 0) t
  newest_of-later s ss t h =
      Below-le (unwrap_or (newest_of (summary_of catalog ss)) 0) _ t
        (rw (newest-cons s ss)
          (max_opt-le (last_end (tree_of catalog s)) (newest_of (summary_of catalog ss))).1)
        h

  newest_end_slot-Below :
      (s : Stream) → Below (unwrap_or (newest_end_slot catalog) 0) (tree_of catalog s)
  unfolding newest_end_slot summary
  newest_end_slot-Below tx = newest_of-Below tx (acct ∷ block ∷ [])
  newest_end_slot-Below acct =
      newest_of-later tx (acct ∷ block ∷ []) (tree_of catalog acct)
        (newest_of-Below acct (block ∷ []))
  newest_end_slot-Below block =
      newest_of-later tx (acct ∷ block ∷ []) (tree_of catalog block)
        (newest_of-later acct (block ∷ []) (tree_of catalog block) (newest_of-Below block []))

  -- No chunk of a stream that is asked for starts before the slot.
  abbrev NoneBefore : Option ℕ → Stream → Type 0
  NoneBefore o s = has_stream s parsed ≡ true → From o (tree_of catalog s)

  oldest_slot-From :
      (s : Stream) (ss : List Stream)
      → NoneBefore (oldest_slot parsed (summary_of catalog (s ∷ ss))) s
  oldest_slot-From s ss h =
      rw (oldest-cons s ss, h)
        (From-min (first_key (tree_of catalog s)) (oldest_slot parsed (summary_of catalog ss))
          (tree_of catalog s) (first_key-From (tree_of catalog s) (kept s).0))

  oldest_slot-later :
      (s r : Stream) (ss : List Stream)
      → NoneBefore (oldest_slot parsed (summary_of catalog ss)) r
      → NoneBefore (oldest_slot parsed (summary_of catalog (s ∷ ss))) r
  oldest_slot-later s r ss k h = elim (Bool-cases (has_stream s parsed)) [
    | inl q ↦
        rw (oldest-cons s ss, q)
          (From-min_right (first_key (tree_of catalog s))
            (oldest_slot parsed (summary_of catalog ss)) (tree_of catalog r) (k h))
    | inr q ↦ rw (oldest-cons s ss, q) (k h)
  ]

  oldest_slot-NoneBefore : (s : Stream) → NoneBefore (oldest_slot parsed (summary catalog)) s
  unfolding summary
  oldest_slot-NoneBefore tx = oldest_slot-From tx (acct ∷ block ∷ [])
  oldest_slot-NoneBefore acct =
      oldest_slot-later tx acct (acct ∷ block ∷ []) (oldest_slot-From acct (block ∷ []))
  oldest_slot-NoneBefore block =
      oldest_slot-later tx block (acct ∷ block ∷ [])
        (oldest_slot-later acct block (block ∷ []) (oldest_slot-From block []))

  -- A chunk of a stream that is asked for starts at the slot.
  abbrev pub Attained : ℕ → Type 0
  Attained f =
      (s : Stream) × (has_stream s parsed ≡ true) × (starts_at f (tree_of catalog s) ≡ true)

  oldest_slot-Attained :
      (ss : List Stream) (f : ℕ) → oldest_slot parsed (summary_of catalog ss) ≡ some f → Attained f
  unfolding oldest_slot summary_of
  oldest_slot-Attained [] f h = cc
  oldest_slot-Attained (s ∷ ss) f h = elim (Bool-cases (has_stream s parsed)) [
    | inr q ↦ oldest_slot-Attained ss f (sym (rw (oldest-cons s ss, q) refl) ∙ h)
    | inl q ↦
        let split : min_opt (first_key (tree_of catalog s))
              (oldest_slot parsed (summary_of catalog ss))
            ≡ some f =
          sym (rw (oldest-cons s ss, q) refl) ∙ h in
        elim (min_opt-some (first_key (tree_of catalog s)) _ f split) [
          | inl k ↦ (s, q, first_key-starts_at (tree_of catalog s) f k)
          | inr k ↦ oldest_slot-Attained ss f k
        ]
  ]

  -- The chunks of a stream that a replay from a slot has to read.
  abbrev pub to_read : Stream → ℕ → List ChunkEntry
  to_read s from_slot =
      if has_stream s parsed then ending_after from_slot (tree_of catalog s) else []

  chunks_in_range-ending_after :
      (s : Stream) (from_slot : ℕ)
      → chunks_in_range catalog s from_slot (unwrap_or (newest_end_slot catalog) 0)
        ≡ ending_after from_slot (tree_of catalog s)
  unfolding chunks_in_range
  chunks_in_range-ending_after s from_slot =
      let to_slot = unwrap_or (newest_end_slot catalog) 0 in
      ap (map (λ (p : ℕ × ChunkEntry). p.1)) (
        range_to-overlaps from_slot to_slot (tree_of catalog s) (kept s).0
        ∙ overlaps-all from_slot to_slot (tree_of catalog s) (newest_end_slot-Below s))

  -- The slot is at or below the start of every chunk of a stream that is asked for.
  abbrev pub AtOrBelow : ℕ → Stream → Type 0
  AtOrBelow f s =
      All (λ (p : ℕ × ChunkEntry). (not (has_stream s parsed) || leb f p.0) ≡ true)
        (tree_of catalog s)

  From-unless :
      (b : Bool) (f : ℕ) (t : Tree)
      → (b ≡ true → From (some f) t)
      → All (λ (p : ℕ × ChunkEntry). (not b || leb f p.0) ≡ true) t
  From-unless b f [] h = tt
  From-unless b f (p ∷ t) h = (
    elim (Bool-cases b) [ inl q ↦ ground (arith, (h q).0) | inr q ↦ ground (arith, q) ],
    From-unless b f t (λ q. (h q).1),
  )

  module _ (R : Roaring) (decode : Base58)
      (index_of : Stream → ChunkEntry → Result IndexError ChunkIndex) where
    -- The chunks that `plan` reads.
    pub record Covers (explicit : Option ℕ) (plan : ReplayPlan R) : Type 0 where
      pub first : ℕ
      pub held : Attained first
      pub least : (s : Stream) → AtOrBelow first s
      pub start : plan.from_slot ≡ unwrap_or explicit first
      pub start_le : first ≤ plan.from_slot
      pub of_tx : map (λ (p : ChunkPlan R). p.entry) plan.plans_tx ≡ to_read tx plan.from_slot
      pub of_acct : map (λ (p : ChunkPlan R). p.entry) plan.plans_acct ≡ to_read acct plan.from_slot
      pub of_block :
          map (λ (p : ChunkPlan R). p.entry) plan.plans_block ≡ to_read block plan.from_slot

    chunks_of-to_read :
        (s : Stream) (from_slot to_slot : ℕ)
        → to_slot ≡ unwrap_or (newest_end_slot catalog) 0
        → chunks_of R decode index_of catalog parsed s from_slot to_slot ≡ to_read s from_slot
    chunks_of-to_read s from_slot to_slot e = rw e (
        ap (λ (es : List ChunkEntry). if has_stream s parsed then es else [])
          (chunks_in_range-ending_after s from_slot))

    -- In a catalog of nonempty chunks in the order of their starts, a replay that is planned
    -- starts at the slot that was asked for, or else at the first start of a chunk of the streams
    -- that the subscription names, never before that one; and it plans for every named stream
    -- all of its chunks that end after this slot and no others, in their order, and none for the
    -- other streams.
    pub plan_replay-Covers :
        (explicit : Option ℕ) (plan : ReplayPlan R)
        → plan_replay R decode index_of catalog parsed explicit ≡ ok plan
        → Covers explicit plan
    unfolding summary
    plan_replay-Covers explicit plan h =
        let k = plan_replay-Planned R decode index_of catalog parsed explicit plan h in
        record {
          first = k.first;
          held = oldest_slot-Attained (all_streams) k.first k.oldest_held;
          least = λ s.
              From-unless (has_stream s parsed) k.first (tree_of catalog s)
                (subst (λ o. NoneBefore o s) k.oldest_held (oldest_slot-NoneBefore s));
          start = k.start;
          start_le = k.start_le;
          of_tx = k.of_tx ∙ chunks_of-to_read tx plan.from_slot plan.to_slot_exclusive k.end;
          of_acct = k.of_acct ∙ chunks_of-to_read acct plan.from_slot plan.to_slot_exclusive k.end;
          of_block =
              k.of_block ∙ chunks_of-to_read block plan.from_slot plan.to_slot_exclusive k.end;
        }
