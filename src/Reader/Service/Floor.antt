-- ===== src/Reader/Service/Floor.antt =====
-- The slot that sillage-reader/src/grpc.rs announces as the first available, and the slots from
-- which sillage-reader/src/replay.rs plans.
use sillage.Prelude.{
  ℕ, min, ◌≤◌, ◌≡◌, refl, inl, inr, Option, none, some, List, [], ◌∷◌, Result, ok, arith,
  Bool-cases, subst,
}
use sillage.Common.Stream.{Stream}
use sillage.Common.Roaring.{Roaring}
use sillage.Reader.Index.{ChunkIndex, IndexError}
use sillage.Reader.Filter.{Base58}
use sillage.Reader.Catalog.{ChunkEntry, ChunkCatalog, StreamSummary, summary}
use sillage.Reader.Subscription.{SubscriptionFilters, has_stream}
use sillage.Reader.Replay.Plan.{ReplayPlan, min_opt, oldest_slot, plan_replay}
use sillage.Reader.Replay.Plan.Selection.{plan_replay-Planned}
use sillage.Reader.Service.{min_start_of, first_available_slot}

-- There is a slot at or below another, if there is the other.
abbrev pub AtMostOpt : Option ℕ → Option ℕ → Type 0
AtMostOpt a none = Unit {0}
AtMostOpt a (some o) = (x : ℕ) × (a ≡ some x) × (x ≤ o)

min_opt-AtMostOpt : (s a o : Option ℕ) → AtMostOpt a o → AtMostOpt (min_opt s a) (min_opt s o)
min_opt-AtMostOpt none a o h = h
min_opt-AtMostOpt (some s) none none h = (s, refl, omega arith)
min_opt-AtMostOpt (some s) (some x) none h = (min s x, refl, omega arith)
min_opt-AtMostOpt (some s) a (some o) (x, e, le) = (min s x, rw e refl, omega (arith, le))

min_opt-right : (s a o : Option ℕ) → AtMostOpt a o → AtMostOpt (min_opt s a) o
min_opt-right none a o h = h
min_opt-right (some s) a none h = tt
min_opt-right (some s) a (some o) (x, e, le) = (min s x, rw e refl, omega (arith, le))

min_start_of-oldest_slot :
    (parsed : SubscriptionFilters) (rs : List StreamSummary)
    → AtMostOpt (min_start_of rs) (oldest_slot parsed rs)
unfolding min_start_of oldest_slot
min_start_of-oldest_slot parsed [] = tt
min_start_of-oldest_slot parsed (r ∷ rs) = elim (Bool-cases (has_stream r.stream parsed)) [
  | inl q ↦ rw q (
      min_opt-AtMostOpt r.min_start (min_start_of rs) (oldest_slot parsed rs)
        (min_start_of-oldest_slot parsed rs))
  | inr q ↦ rw q (
      min_opt-right r.min_start (min_start_of rs) (oldest_slot parsed rs)
        (min_start_of-oldest_slot parsed rs))
]

-- A replay that is planned starts at the announced slot or later, whatever streams it asks for.
pub plan_replay-announced :
    (R : Roaring) (decode : Base58) (index_of : Stream → ChunkEntry → Result IndexError ChunkIndex)
    (catalog : ChunkCatalog) (parsed : SubscriptionFilters) (explicit : Option ℕ)
    (plan : ReplayPlan R)
    → plan_replay R decode index_of catalog parsed explicit ≡ ok plan
    → (a : ℕ) × (first_available_slot catalog ≡ some a) × (a ≤ plan.from_slot)
unfolding first_available_slot
plan_replay-announced R decode index_of catalog parsed explicit plan h =
    let k = plan_replay-Planned R decode index_of catalog parsed explicit plan h in
    let (a, e, le) =
      subst (AtMostOpt (min_start_of (summary catalog))) k.oldest_held
        (min_start_of-oldest_slot parsed (summary catalog)) in
    (a, e, omega (arith, le, k.start_le))
