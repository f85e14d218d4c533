-- ===== src/Reader/Follow/Passes.antt =====
-- The passes of `follow_replay` of sillage-reader/src/customer.rs, one after another.
use sillage.Prelude.{
  ℕ, suc, ◌-◌, ◌≤◌, ◌<◌, ◌≡◌, Option, none, some, Bool, List, [], ◌∷◌, ◌++◌, map, leb, Result, ok,
  All, u64_mod,
}
use sillage.Common.Update.{SubscribeUpdate}
use sillage.Common.Roaring.{Roaring}
use sillage.Common.Packages.{Packages}
use sillage.Reader.Filter.{Base58}
use sillage.Reader.Subscription.{SubscriptionFilters}
use sillage.Reader.Decoded.{DecodedChunk, DecodeError}
use sillage.Reader.Replay.Plan.{ChunkPlan, ReplayPlan, plan_replay}
use sillage.Reader.Replay.Cursor.{Item}
use sillage.Reader.Replay.Cursor.Feed.{plans_feed}
use sillage.Reader.Replay.Drive.{Session, ReplayStats, DriveError}
use sillage.Reader.Replay.Drive.Merge.{Rising}
use sillage.Reader.Replay.Drive.Sending.{message_of, last_of}
use sillage.Reader.Follow.{World, Follower, FollowEnd, drive_pass, follow}

-- The first slot after the last one that was sent.
abbrev pub after : Option ℕ → ℕ
after none = 0
after (some s) = suc s

abbrev pub concat : List (List Item) → List Item
concat [] = []
concat (xs ∷ xss) = xs ++ concat xss

-- Every pass is in the order of the slots, and starts after the last slot that was sent before it.
abbrev pub Passes : Option ℕ → List (List Item) → Type 0
Passes d [] = Unit {0}
Passes d (xs ∷ xss) = Rising (after d) xs × Passes (last_of xs d) xss

-- Slots that have a successor in 64 bits.
abbrev pub Small : Item → Type 0
Small x = x.slot < u64_mod - 1

abbrev Bounded : Option ℕ → Type 0
Bounded none = Unit {0}
Bounded (some s) = s < u64_mod - 1

abbrev is_large : Item → Bool
is_large x = leb (u64_mod - 1) x.slot

-- A plan, if there is one, starts after what was sent.
abbrev Starts : (R : Roaring) → Option (ReplayPlan R) → Option ℕ → Type 0
Starts R none last = Unit {0}
Starts R (some p) last = after last ≤ p.from_slot

module _ (scale : ℕ → ℕ) (encoded_len : SubscribeUpdate → ℕ) (R : Roaring) (P : Packages)
    (decode : Base58) (load : ChunkPlan R → Result DecodeError DecodedChunk)
    (filters : SubscriptionFilters) (idle_timeout : ℕ) where
  abbrev pub InOrder : List (ChunkPlan R) → Type 0
  InOrder plans = Rising 0 (plans_feed R P load plans).0 × All Small (plans_feed R P load plans).0

  -- The messages that a plan selects are in the order of their slots within every stream.
  abbrev pub Orderly : ReplayPlan R → Type 0
  Orderly p = InOrder p.plans_tx × InOrder p.plans_acct × InOrder p.plans_block

  -- So are those of every replay that can be planned in a round.
  abbrev pub OrderlyIn : World → Type 0
  OrderlyIn w =
      (explicit : Option ℕ) (p : ReplayPlan R)
      → plan_replay R decode w.index_of w.catalog filters explicit ≡ ok p
      → Orderly p

  abbrev GivenOrderly : Option (ReplayPlan R) → Type 0
  GivenOrderly none = Unit {0}
  GivenOrderly (some p) = Orderly p

  -- What a follower's channel got since `f`.
  abbrev Got : Follower → Follower → Type 0
  Got f f' =
      (passes : List (List Item)) × (f'.outbox ≡ f.outbox ++ map message_of (concat passes))
      × Passes f.stats.last_slot passes

  abbrev pass : World → ReplayPlan R → Follower → Result DriveError ReplayStats × Session
  pass = drive_pass scale encoded_len R P decode load filters idle_timeout

  abbrev run : List World → Option (ReplayPlan R) → Follower → FollowEnd × Follower
  run = follow scale encoded_len R P decode load filters idle_timeout
