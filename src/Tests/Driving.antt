-- ===== src/Tests/Driving.antt =====
-- A replay of a chunk of two transactions.
use sillage.Prelude.{
  ℕ, ◌≤◌, ◌≡◌, ◌≢◌, refl, none, some, Bool, true, false, List, [], ◌∷◌, map, Result, ok, err, arith,
  All, length,
}
use sillage.Common.Stream.{tx}
use sillage.Reader.Decoded.{DecodedChunk, DecodeError, decode_message, frame_at}
use sillage.Reader.Pacing.{Pacer, from_config, target, observe_emit}
use sillage.Reader.Replay.Plan.{ChunkPlan, ReplayPlan}
use sillage.Reader.Replay.Cursor.{
  Item, peek, peek_current, next_plan, yield_ord, item_at, take_peeked, new_cursor,
}
use sillage.Reader.Replay.Cursor.Feed.{plans_feed, ords_feed}
use sillage.Reader.Replay.{set_filters, extract_recv_ns}
use sillage.Common.Update.{extract_slot}
use sillage.Reader.Replay.Drive.{
  Surroundings, delivered, Session, ReplayStats, DriveError, panicked, out_of_fuel, drive_replay,
  drive, best_of, take_at, peek_all, emit, settle, make_stats, new_session, cursor_of,
}
use sillage.Reader.Replay.Drive.Merge.{count}
use sillage.Reader.Replay.Drive.Sending.{message_of, last_of, due}
use sillage.Reader.Replay.Drive.Outcome.{
  selected, NamesLast, drive_replay-once, drive_replay_complete, drive_replay-ends,
}
use sillage.Reader.Replay.Drive.Drained.{Quiet, drive_replay-drains}
use sillage.Tests.Bitmaps.{list_bitmaps}
use sillage.Tests.Packaged.{small_packages, two_meta}

abbrev pub two_frames : DecodedChunk
two_frames = record {
  raw = 1 ∷ 0 ∷ 0 ∷ 0 ∷ 5 ∷ 1 ∷ 0 ∷ 0 ∷ 0 ∷ 5 ∷ [];
  frames = (4, 5) ∷ (9, 10) ∷ [];
}

abbrev pub load_two : ChunkPlan list_bitmaps → Result DecodeError DecodedChunk
load_two plan = ok two_frames

abbrev two_plan : ReplayPlan list_bitmaps
two_plan = record {
  from_slot = 3;
  to_slot_exclusive = 10;
  plans_tx =
      record {
        stream = tx;
        entry = record {
          stream = tx;
          start_slot = 0;
          end_slot_exclusive = 10;
          zst_len = 10;
          meta = two_meta;
        };
        named_bitmaps = ("mine", 0 ∷ 1 ∷ []) ∷ ("none", []) ∷ [];
        selected = 0 ∷ 1 ∷ [];
        chunk_recv_ns_first = some 100;
      }
      ∷ [];
  plans_acct = [];
  plans_block = [];
}

abbrev pub unpaced : Pacer
unpaced = from_config (record { enabled = false; lag_warn_ms = 1; lag_drop_ms = 60_000 })

abbrev pub quiet : ℕ → Surroundings
quiet n = record { target_now = 50; cancelled = false; delivery = delivered; emit_now = 60 }

abbrev two_outcome : Result DriveError ReplayStats × Session
two_outcome =
    drive_replay (λ n. n) (λ u. 7) list_bitmaps small_packages load_two quiet 3 two_plan unpaced

two_outcome-sent : (length two_outcome.1.outbox ≡ 2) × (two_outcome.1.last_slot ≡ some 5)
unfolding drive_replay drive peek peek_current next_plan yield_ord item_at plans_feed ords_feed
    count decode_message frame_at best_of take_at peek_all take_peeked emit settle target
    observe_emit make_stats extract_slot extract_recv_ns set_filters new_session cursor_of
    new_cursor from_config
two_outcome-sent = (refl, refl)

drive_replay-once_example :
    (sent : List Item) × (two_outcome.1.outbox ≡ map message_of sent)
    × NamesLast two_outcome.0 (last_of sent none)
    × All (λ x. 3 ≤ x.slot) sent
    × ((p : Item → Bool)
        → count p sent ≤ selected list_bitmaps small_packages load_two (due 3 p) two_plan)
drive_replay-once_example =
    drive_replay-once list_bitmaps small_packages load_two (λ n. n) (λ u. 7) quiet 3 two_plan
      unpaced

drive_replay-ends_example : (two_outcome.0 ≢ err out_of_fuel) × (two_outcome.0 ≢ err panicked)
unfolding drive_replay drive peek peek_current next_plan yield_ord item_at plans_feed ords_feed
    count decode_message frame_at best_of take_at peek_all take_peeked emit settle target
    observe_emit make_stats extract_slot extract_recv_ns set_filters new_session cursor_of
    new_cursor from_config
drive_replay-ends_example =
    drive_replay-ends list_bitmaps small_packages load_two (λ n. n) (λ u. 7) quiet 3 two_plan
      unpaced (omega arith)

abbrev two_stats : ReplayStats
two_stats = record { sent = 2; bytes = 14; lag_max = 0; last_slot = some 5; drained = true }

drive_replay_complete_example :
    (sent : List Item) × (two_outcome.1.outbox ≡ map message_of sent)
    × ((p : Item → Bool)
        → count p sent ≡ selected list_bitmaps small_packages load_two (due 3 p) two_plan)
unfolding drive_replay drive peek peek_current next_plan yield_ord item_at plans_feed ords_feed
    count decode_message frame_at best_of take_at peek_all take_peeked emit settle target
    observe_emit make_stats extract_slot extract_recv_ns set_filters new_session cursor_of
    new_cursor from_config
drive_replay_complete_example =
    drive_replay_complete list_bitmaps small_packages load_two (λ n. n) (λ u. 7) quiet 3 two_plan
      unpaced two_stats refl refl

quiet-Quiet : Quiet quiet
quiet-Quiet n = (refl, refl)

drive_replay-drains_example : (s : ReplayStats) × (two_outcome.0 ≡ ok s) × (s.drained ≡ true)
unfolding drive_replay drive peek peek_current next_plan yield_ord item_at plans_feed ords_feed
    count decode_message frame_at best_of take_at peek_all take_peeked emit settle target
    observe_emit make_stats extract_slot extract_recv_ns set_filters new_session cursor_of
    new_cursor from_config
drive_replay-drains_example =
    drive_replay-drains list_bitmaps small_packages load_two (λ n. n) (λ u. 7) quiet quiet-Quiet 3
      two_plan unpaced refl refl refl refl (omega arith)
