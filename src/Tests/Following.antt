-- ===== src/Tests/Following.antt =====
-- A follower of a chunk of two transactions in slots 5 and 6, for two rounds.
use sillage.Prelude.{
  ℕ, none, some, false, Option, List, [], ◌∷◌, ltb, ok, Result, nat_eq, nat_ord, if◌then◌else◌,
}
use sillage.Common.Update.{SubscribeUpdate, UpdateOneof}
use sillage.Common.Packages.{Packages}
use sillage.Reader.Decoded.{DecodedChunk, DecodeError}
use sillage.Reader.Replay.Plan.{PlanError, ChunkPlan, ReplayPlan, plan_replay}
use sillage.Reader.Follow.{World}
use sillage.Reader.Follow.Passes.{Passes, Orderly}
use sillage.Tests.Bitmaps.{list_bitmaps}
use sillage.Tests.Packaged.{small_packages}
use sillage.Tests.Driving.{quiet}
use sillage.Tests.Planning.{no_base58, everything, one_catalog, always_two, whole_plan}

-- A payload is the slot of its message.
abbrev slot_message : List ℕ → SubscribeUpdate
slot_message [] = record { filters = []; update_oneof = none; created_at = none }
slot_message (n ∷ ns) = record {
  filters = [];
  update_oneof = some (UpdateOneof.transaction (record { slot = n; transaction = none }));
  created_at = none;
}

abbrev slot_packages : Packages
slot_packages = record small_packages { decode = λ bs. some (slot_message bs) }

abbrev slot_frames : DecodedChunk
slot_frames = record {
  raw = 1 ∷ 0 ∷ 0 ∷ 0 ∷ 5 ∷ 1 ∷ 0 ∷ 0 ∷ 0 ∷ 6 ∷ [];
  frames = (4, 5) ∷ (9, 10) ∷ [];
}

abbrev load_slots : ChunkPlan list_bitmaps → Result DecodeError DecodedChunk
load_slots plan = ok slot_frames

abbrev round_at : ℕ → World
round_at n = record {
  stopped = false;
  catalog = one_catalog;
  index_of = always_two;
  surroundings = quiet;
  now = n;
  stopped_waiting = false;
}

-- The plans from a slot: the chunk, or nothing.
abbrev plan_from : ℕ → ReplayPlan list_bitmaps
plan_from n = record {
  from_slot = n;
  to_slot_exclusive = 10;
  plans_tx = if ltb n 10 then whole_plan.plans_tx else [];
  plans_acct = [];
  plans_block = [];
}

abbrev Ordered : ReplayPlan list_bitmaps → Type 0
Ordered p =
    Orderly (λ n. n) (λ u. 7) list_bitmaps slot_packages no_base58 load_slots everything 900 p

abbrev planned : Option ℕ → Result PlanError (ReplayPlan list_bitmaps)
planned explicit = plan_replay list_bitmaps no_base58 always_two one_catalog everything explicit
