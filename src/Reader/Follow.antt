-- ===== src/Reader/Follow.antt =====
-- `follow_replay` of sillage-reader/src/customer.rs: a customer's replay is planned again from
-- the slot after the last one that was sent, as long as the syncer lands new chunks.
--
-- A round sees the world at its time: whether it is told to stop, the catalog and the indexes,
-- what happens during the replay, what the clock shows after it, and whether a stop ends the
-- wait.
use sillage.Prelude.{
  ℕ, zero, suc, ◌+◌, max, Option, none, some, Bool, true, false, not, List, [], ◌∷◌, ◌++◌, ltb, leb,
  if◌then◌else◌, Result, ok, err, add64,
}
use sillage.Common.Stream.{Stream}
use sillage.Common.Update.{SubscribeUpdate}
use sillage.Common.Roaring.{Roaring}
use sillage.Common.Packages.{Packages}
use sillage.Reader.Index.{ChunkIndex, IndexError}
use sillage.Reader.Filter.{Base58}
use sillage.Reader.Catalog.{ChunkEntry, ChunkCatalog}
use sillage.Reader.Subscription.{SubscriptionFilters}
use sillage.Reader.Decoded.{DecodedChunk, DecodeError}
use sillage.Reader.Pacing.{Pacer}
use sillage.Reader.Replay.Plan.{PlanError, ChunkPlan, ReplayPlan, plan_replay}
use sillage.Reader.Replay.Drive.{Surroundings, Session, ReplayStats, DriveError, drive_replay}
use sillage.Reader.Replay.Drive.Outcome.{selected}
pub mod Passes

pub record World : Type 0 where
  pub stopped : Bool
  pub catalog : ChunkCatalog
  pub index_of : Stream → ChunkEntry → Result IndexError ChunkIndex
  pub surroundings : ℕ → Surroundings
  pub now : ℕ
  pub stopped_waiting : Bool

pub record Follower : Type 0 where
  pub pacer : Pacer
  pub stats : ReplayStats
  pub idle_deadline : ℕ
  pub outbox : List SubscribeUpdate

-- `following` where the rounds that are looked at are over before the loop is.
pub data FollowEnd : Type 0 where
  returned following : FollowEnd
  failed : DriveError → FollowEnd

unfoldable pub new_follower : Pacer → ℕ → Follower
new_follower pacer deadline = record {
  pacer = pacer;
  stats = record { sent = 0; bytes = 0; lag_max = 0; last_slot = none; drained = true };
  idle_deadline = deadline;
  outbox = [];
}

-- `total.last_slot.map(|s| s + 1).or(ctx.filters.from_slot)`.
abbrev pub resume_from : Option ℕ → Option ℕ → Option ℕ
resume_from none from_slot = from_slot
resume_from (some s) from_slot = some (add64 s 1)

abbrev pub later_slot : Option ℕ → Option ℕ → Option ℕ
later_slot none total = total
later_slot (some s) total = some s

-- The total with a pass added.
abbrev pub add_pass : ReplayStats → ReplayStats → ReplayStats
add_pass pass total = record total {
  sent = add64 total.sent pass.sent;
  bytes = add64 total.bytes pass.bytes;
  lag_max = max total.lag_max pass.lag_max;
  last_slot = later_slot pass.last_slot total.last_slot;
}

abbrev pub after_replay : Session → Follower → Follower
after_replay t f = record f { pacer = t.pacer; outbox = f.outbox ++ t.outbox }

abbrev pub after_pass : ReplayStats → Session → Follower → Follower
after_pass pass t f = record (after_replay t f) { stats = add_pass pass f.stats }

abbrev pub undrained : Follower → Follower
undrained f = record f { stats = record f.stats { drained = false } }

module _ (scale : ℕ → ℕ) (encoded_len : SubscribeUpdate → ℕ) (R : Roaring) (P : Packages)
    (decode : Base58) (load : ChunkPlan R → Result DecodeError DecodedChunk)
    (filters : SubscriptionFilters) (idle_timeout : ℕ) where
  -- `plan.take()`, or a new plan.
  unfoldable pub take_plan :
      Option (ReplayPlan R) → World → Follower → Result PlanError (ReplayPlan R)
  take_plan (some p) w f = ok p
  take_plan none w f =
      plan_replay R decode w.index_of w.catalog filters
        (resume_from f.stats.last_slot filters.from_slot)

  -- A pass gets the rounds that it can use.
  unfoldable pub drive_pass :
      World → ReplayPlan R → Follower → Result DriveError ReplayStats × Session
  drive_pass w p f =
      drive_replay scale encoded_len R P load w.surroundings (suc (selected R P load (λ x. true) p))
        p f.pacer

  unfoldable pub follow : List World → Option (ReplayPlan R) → Follower → FollowEnd × Follower
  follow [] plan f = (following, f)
  follow (w ∷ ws) plan f = if w.stopped then (returned, f) else elim (take_plan plan w f) [
    | err e ↦ (returned, undrained f)
    | ok p ↦
        let (r, t) = drive_pass w p f in
        elim r [
          | err e ↦ (failed e, after_replay t f)
          | ok pass ↦
              let f1 = after_pass pass t f in
              let more = follow ws none (record f1 { idle_deadline = w.now + idle_timeout }) in
              let again = follow ws none f1 in
              if not pass.drained
              then (returned, undrained f1)
              else if ltb 0 pass.sent
              then more
              else if leb f.idle_deadline w.now
              then (returned, f1)
              else if w.stopped_waiting
              then (returned, f1)
              else again
        ]
  ]

  -- `follow_replay`.
  unfoldable pub follow_replay : List World → ReplayPlan R → Pacer → ℕ → FollowEnd × Follower
  unfolding follow new_follower
  follow_replay ws first_plan pacer start =
      follow ws (some first_plan) (new_follower pacer (start + idle_timeout))
