-- ===== src/Reader/Replay/Cursor/Feed.antt =====
-- What a cursor still has to give, as a list that ends or fails: the cursor of
-- sillage-reader/src/replay.rs gives exactly this, one message a peek.
use sillage.Prelude.{
  ℕ, ◌≡◌, refl, Option, none, some, List, [], ◌∷◌, ◌++◌, Result, ok, err, ◌>>=◌, if◌then◌else◌,
  Option-cases, Bool-cases, Result-cases, List-cases, inl, inr,
}
use sillage.Common.Roaring.{Roaring}
use sillage.Common.Packages.{Packages}
use sillage.Reader.Decoded.{DecodedChunk, DecodeError}
use sillage.Reader.Replay.Plan.{ChunkPlan}
use sillage.Reader.Replay.Cursor.{
  Item, Current, StreamCursor, item_at, yield_ord, next_plan, peek_current, peek,
}

-- Messages, and the error after them if there is one.
abbrev pub Feed : Type 0
Feed = List Item × Option DecodeError

abbrev pub ended : Feed
ended = ([], none)

abbrev pub with_first : Option Item → Feed → Feed
with_first none f = f
with_first (some x) f = (x ∷ f.0, f.1)

abbrev pub first_then : Result DecodeError Item → Feed → Feed
first_then (err e) f = ([], some e)
first_then (ok x) f = (x ∷ f.0, f.1)

abbrev pub then_feed : Feed → Feed → Feed
then_feed (xs, some e) f = (xs, some e)
then_feed (xs, none) f = (xs ++ f.0, f.1)

module _ (R : Roaring) (P : Packages) (load : ChunkPlan R → Result DecodeError DecodedChunk) where
  -- The messages of the ordinals, up to one that cannot be decoded.
  unfoldable pub ords_feed : ChunkPlan R → DecodedChunk → List ℕ → Feed
  ords_feed plan decoded [] = ended
  ords_feed plan decoded (ord ∷ ords) =
      first_then (item_at R P load plan decoded ord) (ords_feed plan decoded ords)

  unfoldable pub plans_feed : List (ChunkPlan R) → Feed
  plans_feed [] = ended
  plans_feed (plan ∷ plans) =
      let rest = plans_feed plans in
      if R.is_empty plan.selected then rest else elim (load plan) [
        | err e ↦ ([], some e)
        | ok decoded ↦ then_feed (ords_feed plan decoded (R.iter plan.selected)) rest
      ]

  unfoldable pub current_feed : List (ChunkPlan R) → Option (Current R) → Feed
  current_feed plans none = plans_feed plans
  current_feed plans (some c) = then_feed (ords_feed c.plan c.decoded c.ords) (plans_feed plans)

  unfoldable pub cursor_feed : StreamCursor R → Feed
  cursor_feed c = with_first c.peeked (current_feed c.plans c.current)

  -- The outcome of a peek against what there is to give.
  abbrev pub Peeks : Feed → Result DecodeError (StreamCursor R) → Type 0
  Peeks ([], none) r =
      (c : StreamCursor R) × (r ≡ ok c)
      × (c.peeked ≡ none)
      × (current_feed c.plans c.current ≡ ended)
  Peeks ([], some e) r = r ≡ err e
  Peeks (x ∷ xs, e) r =
      (c : StreamCursor R) × (r ≡ ok c)
      × (c.peeked ≡ some x)
      × (current_feed c.plans c.current ≡ (xs, e))

  yield_then :
      (r : Result DecodeError Item) (rest later : Feed) (plans : List (ChunkPlan R))
      (c : Option (Current R))
      → current_feed plans c ≡ then_feed rest later
      → Peeks
          (then_feed (first_then r rest) later)
          (r >>= λ item. ok (record { plans = plans; current = c; peeked = some item }))
  yield_then (err e) rest later plans c h = refl
  yield_then (ok x) (xs, none) later plans c h = (_, refl, refl, h)
  yield_then (ok x) (xs, some e) later plans c h = (_, refl, refl, h)

  yield_ord-Peeks :
      (plans : List (ChunkPlan R)) (plan : ChunkPlan R) (decoded : DecodedChunk) (ord : ℕ)
      (ords : List ℕ)
      → Peeks
          (then_feed (ords_feed plan decoded (ord ∷ ords)) (plans_feed plans))
          (yield_ord R P load plans plan decoded ord ords)
  unfolding yield_ord ords_feed current_feed
  yield_ord-Peeks plans plan decoded ord ords =
      yield_then (item_at R P load plan decoded ord) (ords_feed plan decoded ords)
        (plans_feed plans) plans (some (record { plan = plan; decoded = decoded; ords = ords }))
        refl

  next_plan-Peeks :
      (plans : List (ChunkPlan R)) → Peeks (plans_feed plans) (next_plan R P load plans)
  unfolding next_plan plans_feed current_feed ords_feed
  next_plan-Peeks [] = (_, refl, refl, refl)
  next_plan-Peeks (plan ∷ plans) = elim (Bool-cases (R.is_empty plan.selected)) [
    | inl q ↦ rw q (next_plan-Peeks plans)
    | inr q ↦ elim (Result-cases (load plan)) [
      | inr (e, l) ↦ rw (q, l) refl
      | inl (d, l) ↦ elim (List-cases (R.iter plan.selected)) [
        | inl n ↦ rw (q, l, n) (next_plan-Peeks plans)
        | inr (ord, (ords, n)) ↦ rw (q, l, n) (yield_ord-Peeks plans plan d ord ords)
      ]
    ]
  ]

  peek_current-Peeks :
      (plans : List (ChunkPlan R)) (c : Option (Current R))
      → Peeks (current_feed plans c) (peek_current R P load plans c)
  unfolding peek_current current_feed ords_feed
  peek_current-Peeks plans none = next_plan-Peeks plans
  peek_current-Peeks plans (some c) = elim (List-cases c.ords) [
    | inl n ↦ rw n (next_plan-Peeks plans)
    | inr (ord, (ords, n)) ↦ rw n (yield_ord-Peeks plans c.plan c.decoded ord ords)
  ]

  -- A peek shows the first message that a cursor has still to give, and fails where the next one
  -- cannot be had.
  pub peek-Peeks : (c : StreamCursor R) → Peeks (cursor_feed c) (peek R P load c)
  unfolding peek cursor_feed
  peek-Peeks c = elim (Option-cases c.peeked) [
    | inl n ↦ rw n (peek_current-Peeks c.plans c.current)
    | inr (x, n) ↦ rw n (_, refl, refl, refl)
  ]
