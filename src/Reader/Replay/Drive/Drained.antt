-- ===== src/Reader/Replay/Drive/Drained.antt =====
-- `drive_replay` of sillage-reader/src/replay.rs where nothing comes in between.
use sillage.Prelude.{
  ℕ, zero, suc, ◌<◌, ◌≡◌, refl, sym, ◌∙◌, inl, inr, Option, Bool, true, false, Result, ok, err,
  arith, All, ltb, length, Bool-cases,
}
use sillage.Common.Update.{SubscribeUpdate}
use sillage.Common.Roaring.{Roaring}
use sillage.Common.Packages.{Packages}
use sillage.Reader.Decoded.{DecodedChunk, DecodeError}
use sillage.Reader.Pacing.{Pacer, target, observe_emit, on_time}
use sillage.Reader.Replay.Plan.{ChunkPlan, ReplayPlan}
use sillage.Reader.Replay.Cursor.{Item}
use sillage.Reader.Replay.Cursor.Feed.{plans_feed}
use sillage.Reader.Replay.Drive.{
  Surroundings, delivered, Session, ReplayStats, DriveError, make_stats, settle, new_session, emit,
  drive, drive_replay,
}
use sillage.Reader.Replay.Drive.Merge.{Cursors, feed_of, total, peek_all-ok}
use sillage.Reader.Replay.Drive.Taken.{Sound, taken-Sound, Peeked-All}
use sillage.Reader.Replay.Drive.Complete.{
  outlook, failed, finished, chosen, run_finished, run_chosen,
}
use sillage.Reader.Replay.Drive.Outcome.{selected, cursors, cursors-total, cursor_of-feed}

-- Every message is delivered, and no shutdown comes.
abbrev pub Quiet : (ℕ → Surroundings) → Type 0
Quiet env = (n : ℕ) → ((env n).cancelled ≡ false) × ((env n).delivery ≡ delivered)

target-unpaced :
    (scale : ℕ → ℕ) (now : ℕ) (ns : Option ℕ) (p : Pacer)
    → p.enabled ≡ false
    → (target scale now ns p).1 ≡ p
unfolding target
target-unpaced scale now ns p h = rw (target, h) refl

observe_emit-unpaced :
    (now due : ℕ) (p : Pacer) → p.enabled ≡ false → observe_emit now due p ≡ (on_time, p)
unfolding observe_emit
observe_emit-unpaced now due p h = rw (observe_emit, h) refl

-- Without pacing a delivered message does not end the replay.
emit-goes_on :
    (scale : ℕ → ℕ) (encoded_len : SubscribeUpdate → ℕ) (env : Surroundings) (x : Item)
    (t : Session)
    → env.cancelled ≡ false
    → env.delivery ≡ delivered
    → t.pacer.enabled ≡ false
    → ((emit scale encoded_len env x t).0 ≡ true)
      × ((emit scale encoded_len env x t).1.pacer.enabled ≡ false)
unfolding emit settle
emit-goes_on scale encoded_len env x t c d p =
    let kept = target-unpaced scale env.target_now x.recv_ns t.pacer p in
    let due = (target scale env.target_now x.recv_ns t.pacer).0 in
    rw (c, d, kept, observe_emit-unpaced env.emit_now due t.pacer p) (refl, p)

module _ (R : Roaring) (P : Packages) (load : ChunkPlan R → Result DecodeError DecodedChunk)
    (scale : ℕ → ℕ) (encoded_len : SubscribeUpdate → ℕ) (env : ℕ → Surroundings)
    (quiet : Quiet env) where
  -- The loop comes to the end of every stream.
  abbrev Drains : Result DriveError ReplayStats × Session → Type 0
  Drains r = (s : ReplayStats) × (r.0 ≡ ok s) × (s.drained ≡ true)

  drive-Drains :
      (from_slot fuel : ℕ) (cs : Cursors R P load) (t : Session)
      → All (λ c. Sound R P load (feed_of R P load c)) cs
      → t.pacer.enabled ≡ false
      → total R P load (λ x. true) cs < fuel
      → Drains (drive scale encoded_len R P load env from_slot fuel cs t)
  unfolding drive make_stats
  drive-Drains from_slot zero cs t sound p h = ground arith
  drive-Drains from_slot (suc fuel) cs t sound p h = elim (outlook R P load cs) [
    | failed e q ↦
        let (ready, r) = peek_all-ok R P load cs sound in
        let wrong : err e ≡ ok ready = sym q ∙ r in cc
    | finished ready q b over ↦
        rw (run_finished R P load scale encoded_len env from_slot fuel cs ready t q b)
          (make_stats true t, refl, refl)
    | chosen ready left i x q b a h' k ↦
        let r : Bool × Session = emit scale encoded_len (env (length t.outbox)) x t in
        let (c, d) = quiet (length t.outbox) in
        let (going, off) = emit-goes_on scale encoded_len (env (length t.outbox)) x t c d p in
        let less : total R P load (λ x. true) left < fuel =
          omega (arith, (k 0).totals (λ x. true), h) in
        let sound' : All (λ c. Sound R P load (feed_of R P load c)) left =
          taken-Sound R P load i ready left x a
            (Peeked-All R P load (Sound R P load) cs ready h'.feeds sound) in
        elim (Bool-cases (ltb x.slot from_slot)) [
          | inl below ↦
              rw
                (
                  run_chosen R P load scale encoded_len env from_slot fuel cs ready left t i x q b
                      a,
                  below,
                )
                (drive-Drains from_slot fuel left t sound' p less)
          | inr due ↦
              rw
                (
                  run_chosen R P load scale encoded_len env from_slot fuel cs ready left t i x q b
                      a,
                  due,
                  going,
                )
                (drive-Drains from_slot fuel left r.1 sound' off less)
        ]
  ]

  -- With pacing off, every message delivered, no shutdown and every selected message readable,
  -- a replay with enough rounds ends drained.
  pub drive_replay-drains :
      (fuel : ℕ) (plan : ReplayPlan R) (pacer : Pacer)
      → pacer.enabled ≡ false
      → Sound R P load (plans_feed R P load plan.plans_tx)
      → Sound R P load (plans_feed R P load plan.plans_acct)
      → Sound R P load (plans_feed R P load plan.plans_block)
      → selected R P load (λ x. true) plan < fuel
      → (s : ReplayStats) × ((drive_replay scale encoded_len R P load env fuel plan pacer).0 ≡ ok s)
        × (s.drained ≡ true)
  unfolding drive_replay cursors new_session
  drive_replay-drains fuel plan pacer off a b c h =
      drive-Drains plan.from_slot fuel (cursors R P load scale encoded_len env fuel plan pacer)
        (new_session pacer)
        (rw
          (
            cursor_of-feed R P load plan.plans_tx,
            cursor_of-feed R P load plan.plans_acct,
            cursor_of-feed R P load plan.plans_block,
          )
          (a, (b, (c, tt))))
        off (rw (cursors-total R P load scale encoded_len env fuel plan pacer (λ x. true)) h)
