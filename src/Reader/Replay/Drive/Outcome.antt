-- ===== src/Reader/Replay/Drive/Outcome.antt =====
-- `drive_replay` of sillage-reader/src/replay.rs, from a plan to the end of the channel.
use sillage.Prelude.{
  Option, ℕ, ◌+◌, ◌≤◌, ◌<◌, ◌≡◌, ◌≢◌, refl, ◌∙◌, none, Bool, true, List, [], ◌∷◌, map, Result, ok,
  err, arith, All,
}
use sillage.Common.Update.{SubscribeUpdate}
use sillage.Common.Roaring.{Roaring}
use sillage.Common.Packages.{Packages}
use sillage.Reader.Decoded.{DecodedChunk, DecodeError}
use sillage.Reader.Pacing.{Pacer}
use sillage.Reader.Replay.Plan.{ChunkPlan, ReplayPlan}
use sillage.Reader.Replay.Cursor.{Item, new_cursor}
use sillage.Reader.Replay.Cursor.Feed.{plans_feed, current_feed, cursor_feed}
use sillage.Reader.Replay.Drive.{
  Surroundings, Session, ReplayStats, DriveError, panicked, out_of_fuel, new_session, cursor_of,
  drive_replay,
}
use sillage.Reader.Replay.Drive.Merge.{count, Rising, Cursors, feed_of, total, Merged}
use sillage.Reader.Replay.Drive.Sending.{message_of, last_of, due, Sends}
use sillage.Reader.Replay.Drive.Complete.{drive-Sent, drive-Ends, drive-last}

-- The statistics of a replay that returns them have this last slot.
abbrev pub NamesLast : Result DriveError ReplayStats → Option ℕ → Type 0
NamesLast (ok s) last = s.last_slot ≡ last
NamesLast (err e) last = Unit {0}

NamesLast-intro :
    (r : Result DriveError ReplayStats) (last : Option ℕ)
    → ((s : ReplayStats) → r ≡ ok s → s.last_slot ≡ last)
    → NamesLast r last
NamesLast-intro (ok s) last h = h s refl
NamesLast-intro (err e) last h = tt

module _ (R : Roaring) (P : Packages) (load : ChunkPlan R → Result DecodeError DecodedChunk) where
  -- How many of the messages that the plan selects pass a test.
  abbrev pub selected : (Item → Bool) → ReplayPlan R → ℕ
  selected p plan =
      count p (plans_feed R P load plan.plans_tx).0
      + (count p (plans_feed R P load plan.plans_acct).0
          + count p (plans_feed R P load plan.plans_block).0)

  pub cursor_of-feed :
      (plans : List (ChunkPlan R))
      → feed_of R P load (cursor_of R plans) ≡ plans_feed R P load plans
  unfolding feed_of cursor_of cursor_feed current_feed plans_feed new_cursor
  cursor_of-feed [] = refl
  cursor_of-feed (p ∷ ps) = refl

  module _ (scale : ℕ → ℕ) (encoded_len : SubscribeUpdate → ℕ) (env : ℕ → Surroundings) (fuel : ℕ)
      (plan : ReplayPlan R) (pacer : Pacer) where
    abbrev pub outcome : Result DriveError ReplayStats × Session
    outcome = drive_replay scale encoded_len R P load env fuel plan pacer

    unfoldable pub cursors : Cursors R P load
    cursors =
        cursor_of R plan.plans_tx ∷ cursor_of R plan.plans_acct ∷ cursor_of R plan.plans_block ∷ []

    pub cursors-total : (p : Item → Bool) → total R P load p cursors ≡ selected p plan
    unfolding total cursors
    cursors-total p =
        rw
          (
            cursor_of-feed plan.plans_tx,
            cursor_of-feed plan.plans_acct,
            cursor_of-feed plan.plans_block,
          )
          (omega arith)

    pub sends :
        (sent : List Item) × Sends R P load plan.from_slot cursors
          (new_session pacer)
          outcome.0
          outcome.1
          sent
    unfolding drive_replay cursors
    sends = drive-Sent R P load scale encoded_len env plan.from_slot fuel _ _

    pub Rising-above :
        (low : ℕ) (sent : List Item)
        → Rising 0 sent
        → All (λ x. low ≤ x.slot) sent
        → Rising low sent
    Rising-above low [] r a = tt
    Rising-above low (x ∷ xs) r a = (a.0, r.1)

    -- Whatever happens during the replay, what the channel gets are selected messages from
    -- the first slot on, none of them more often than it was selected, and the statistics that
    -- a replay returns name the slot of the last one, or none where nothing was sent.
    pub drive_replay-once :
        (sent : List Item) × (outcome.1.outbox ≡ map message_of sent)
        × NamesLast outcome.0 (last_of sent none)
        × All (λ x. plan.from_slot ≤ x.slot) sent
        × ((p : Item → Bool) → count p sent ≤ selected (due plan.from_slot p) plan)
    unfolding new_session drive_replay cursors
    drive_replay-once =
        let (sent, h) = sends in
        (
          sent,
          h.outbox,
          NamesLast-intro outcome.0 (last_of sent none) (λ s e.
              drive-last R P load scale encoded_len env plan.from_slot fuel cursors
                (new_session pacer) s e
              ∙ h.last),
          h.above,
          λ p. rw⁻¹ (cursors-total (due plan.from_slot p)) (h.once p),
        )

    -- Where a replay ends drained, every selected message from the first slot on was sent as
    -- often as it was selected, and nothing else.
    pub drive_replay_complete :
        (s : ReplayStats)
        → outcome.0 ≡ ok s
        → s.drained ≡ true
        → (sent : List Item) × (outcome.1.outbox ≡ map message_of sent)
          × ((p : Item → Bool) → count p sent ≡ selected (due plan.from_slot p) plan)
    unfolding new_session
    drive_replay_complete s e d =
        let (sent, h) = sends in
        (sent, h.outbox, λ p. h.all s e d p ∙ cursors-total (due plan.from_slot p))

    -- With more rounds than selected messages the replay ends by itself, and neither `expect`
    -- of the loop panics.
    pub drive_replay-ends :
        selected (λ x. true) plan < fuel
        → (outcome.0 ≢ err out_of_fuel) × (outcome.0 ≢ err panicked)
    unfolding drive_replay cursors
    drive_replay-ends h =
        drive-Ends R P load scale encoded_len env plan.from_slot fuel cursors (new_session pacer)
          (rw (cursors-total (λ x. true)) h)

    -- A pass over streams in the order of their slots, with the statistics of what it sent.
    pub drive_replay-pass :
        Rising 0 (plans_feed R P load plan.plans_tx).0
        → Rising 0 (plans_feed R P load plan.plans_acct).0
        → Rising 0 (plans_feed R P load plan.plans_block).0
        → (sent : List Item) × (outcome.1.outbox ≡ map message_of sent)
          × Rising plan.from_slot sent
          × ((s : ReplayStats) → outcome.0 ≡ ok s → s.last_slot ≡ last_of sent none)
          × ((p : Item → Bool) → count p sent ≤ selected (due plan.from_slot p) plan)
    unfolding new_session drive_replay cursors
    drive_replay-pass a b c =
        let (sent, h) = sends in
        let merged : Merged R P load 0 cursors =
          rw
            (
              cursor_of-feed plan.plans_tx,
              cursor_of-feed plan.plans_acct,
              cursor_of-feed plan.plans_block,
            )
            (a, (b, (c, tt))) in
        (
          sent,
          h.outbox,
          Rising-above plan.from_slot sent (h.order 0 merged) h.above,
          λ s e.
              drive-last R P load scale encoded_len env plan.from_slot fuel cursors
                (new_session pacer) s e
              ∙ h.last,
          λ p. rw⁻¹ (cursors-total (due plan.from_slot p)) (h.once p),
        )
