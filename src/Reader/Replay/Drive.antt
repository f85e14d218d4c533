-- ===== src/Reader/Replay/Drive.antt =====
-- `drive_replay` of sillage-reader/src/replay.rs: the three streams are merged by slot, and every
-- message is paced and sent.
--
-- What happens outside is given for each message that is sent, by the number of those before it:
-- whether the shutdown comes first, how the sending ends, and what the clock shows. `scale` is the
-- division by the speed multiplier and `encoded_len` is prost's. Lags are nanoseconds.
use sillage.Prelude.{
  ℕ, zero, suc, ◌+◌, max, Option, none, some, Bool, true, false, ◌&&◌, ◌||◌, List, [], ◌∷◌, ◌++◌,
  ltb, eqb, if◌then◌else◌, length, Result, ok, err, ◌>>=◌, add64,
}
use sillage.Common.Update.{SubscribeUpdate}
use sillage.Common.Roaring.{Roaring}
use sillage.Common.Packages.{Packages}
use sillage.Reader.Decoded.{DecodedChunk, DecodeError}
use sillage.Reader.Pacing.{Pacer, LagAction, on_time, warn, drop_client, target, observe_emit}
use sillage.Reader.Replay.{set_filters}
use sillage.Reader.Replay.Plan.{ChunkPlan, ReplayPlan}
use sillage.Reader.Replay.Cursor.{Item, StreamCursor, new_cursor, peek, take_peeked}
pub mod Merge
pub mod Taken
pub mod Sending
pub mod Complete
pub mod Outcome
pub mod Drained

pub data Delivery : Type 0 where
  delivered timed_out receiver_gone : Delivery

pub record Surroundings : Type 0 where
  pub target_now : ℕ
  pub cancelled : Bool
  pub delivery : Delivery
  pub emit_now : ℕ

pub data Status : Type 0 where
  internal send_timed_out fell_behind : Status

pub record ReplayStats : Type 0 where
  pub sent : ℕ
  pub bytes : ℕ
  pub lag_max : ℕ
  pub last_slot : Option ℕ
  pub drained : Bool

-- The local variables of the loop, with what was put into the channel: the messages, and the status
-- that ends it.
pub record Session : Type 0 where
  pub pacer : Pacer
  pub emitted : ℕ
  pub bytes : ℕ
  pub last_slot : Option ℕ
  pub lag_max : ℕ
  pub outbox : List SubscribeUpdate
  pub closing : Option Status

unfoldable pub new_session : Pacer → Session
new_session pacer = record {
  pacer = pacer;
  emitted = 0;
  bytes = 0;
  last_slot = none;
  lag_max = 0;
  outbox = [];
  closing = none;
}

-- `ok` where the loop ends with `Ok`, and `panicked` for the two `expect`s.
pub data DriveError : Type 0 where
  decoding : DecodeError → DriveError
  panicked out_of_fuel : DriveError

unfoldable pub make_stats : Bool → Session → ReplayStats
make_stats drained t = record {
  sent = t.emitted;
  bytes = t.bytes;
  lag_max = t.lag_max;
  last_slot = t.last_slot;
  drained = drained;
}

abbrev pub better : ℕ → ℕ → Option (ℕ × ℕ) → Bool
better i slot none = true
better i slot (some (j, s)) = ltb slot s || (eqb slot s && ltb i j)

module _ (R : Roaring) where
  abbrev pub peeked_of : Option (StreamCursor R) → Option Item
  peeked_of none = none
  peeked_of (some c) = c.peeked

  -- The cursor with the least slot, and of those the first.
  unfoldable pub best_of : ℕ → List (Option (StreamCursor R)) → Option (ℕ × ℕ) → Option (ℕ × ℕ)
  best_of i [] best = best
  best_of i (c ∷ cs) best = elim (peeked_of c) [
    | none ↦ best_of (suc i) cs best
    | some item ↦ best_of (suc i) cs (if better i item.slot best then some (i, item.slot) else best)
  ]

  -- `cursors[i].as_mut()?.take_peeked()?`.
  unfoldable pub take_at :
      ℕ → List (Option (StreamCursor R)) → Option (Item × List (Option (StreamCursor R)))
  take_at i [] = none
  take_at zero (c ∷ cs) = elim c [
    | none ↦ none
    | some k ↦ elim k.peeked [
      | none ↦ none
      | some item ↦ some (item, some (take_peeked R k).1 ∷ cs)
    ]
  ]
  take_at (suc i) (c ∷ cs) = elim (take_at i cs) [
    | none ↦ none
    | some (item, rest) ↦ some (item, c ∷ rest)
  ]

  -- A stream without plans has no cursor.
  unfoldable pub cursor_of : List (ChunkPlan R) → Option (StreamCursor R)
  cursor_of [] = none
  cursor_of (p ∷ ps) = some (new_cursor R (p ∷ ps))

  module _ (P : Packages) (load : ChunkPlan R → Result DecodeError DecodedChunk) where
    -- Every cursor is peeked, in the order of the streams.
    unfoldable pub peek_all :
        List (Option (StreamCursor R)) → Result DecodeError (List (Option (StreamCursor R)))
    peek_all [] = ok []
    peek_all (none ∷ cs) = do rest ← peek_all cs; ok (none ∷ rest)
    peek_all (some c ∷ cs) = do c' ← peek R P load c; rest ← peek_all cs; ok (some c' ∷ rest)

-- What follows a delivered message: `false` ends the replay.
unfoldable pub settle : LagAction × Pacer → Session → Bool × Session
settle (drop_client lag, pacer) t = (false, record t { pacer = pacer; closing = some fell_behind })
settle (warn lag, pacer) t =
    (true, record t { pacer = pacer; lag_max = max t.lag_max lag; emitted = add64 t.emitted 1 })
settle (on_time, pacer) t = (true, record t { pacer = pacer; emitted = add64 t.emitted 1 })

module _ (scale : ℕ → ℕ) (encoded_len : SubscribeUpdate → ℕ) where
  -- The body of the loop from the pacing on.
  unfoldable pub emit : Surroundings → Item → Session → Bool × Session
  emit env item t =
      let filtered = set_filters item.update item.names in
      let (due, pacer) = target scale env.target_now item.recv_ns t.pacer in
      let t1 = record t { pacer = pacer } in
      if env.cancelled then (false, t1) else elim env.delivery [
        | timed_out ↦ (false, record t1 { closing = some send_timed_out })
        | receiver_gone ↦ (false, t1)
        | delivered ↦ settle (observe_emit env.emit_now due t1.pacer) (record t1 {
          bytes = add64 t1.bytes (encoded_len filtered);
          last_slot = some item.slot;
          outbox = t1.outbox ++ (filtered ∷ []);
        })
      ]

  module _ (R : Roaring) (P : Packages) (load : ChunkPlan R → Result DecodeError DecodedChunk) where
    module _ (env : ℕ → Surroundings) (from_slot : ℕ) where
      -- The loop. A round takes one message, so as many rounds as there are messages, and one, are
      -- enough.
      unfoldable pub drive :
          ℕ → List (Option (StreamCursor R)) → Session → Result DriveError ReplayStats × Session
      drive zero cs t = (err out_of_fuel, t)
      drive (suc fuel) cs t = elim (peek_all R P load cs) [
        | err e ↦ (err (decoding e), record t { closing = some internal })
        | ok ready ↦ elim (best_of R 0 ready none) [
          | none ↦ (ok (make_stats true t), t)
          | some (i, slot) ↦ elim (take_at R i ready) [
            | none ↦ (err panicked, t)
            | some (item, left) ↦
                let skipped = drive fuel left t in
                let (going, t') = emit (env (length t.outbox)) item t in
                let rest = drive fuel left t' in
                if ltb slot from_slot
                then skipped
                else if going
                then rest
                else (ok (make_stats false t'), t')
          ]
        ]
      ]

    unfoldable pub drive_replay :
        (ℕ → Surroundings) → ℕ → ReplayPlan R → Pacer → Result DriveError ReplayStats × Session
    unfolding drive new_session cursor_of
    drive_replay env fuel plan pacer =
        drive env plan.from_slot fuel
          (cursor_of R plan.plans_tx
            ∷ cursor_of R plan.plans_acct
            ∷ cursor_of R plan.plans_block
            ∷ [])
          (new_session pacer)
