-- ===== src/Reader/Replay/Plan/Trees.antt =====
-- Where the chunks of a tree of the catalog start and end (sillage-reader/src/storage.rs).
use mathlib.Core.Bool.{◌||◌}
use sillage.Prelude.{
  ◌⊎◌, ℕ, ◌≤◌, ◌<◌, ◌≡◌, refl, Option, none, some, Bool, true, false, List, [], ◌∷◌, map, ltb, leb,
  eqb, arith, anyb, All, filterb, Ascending, Above, Bool-cases, inl, inr, nat_eq, nat_ord,
}
use sillage.Common.Stream.{stream_eq}
use sillage.Reader.Catalog.{ChunkEntry, Tree, first_key, last_end, max_opt}
use sillage.Reader.Catalog.Ranges.{overlaps}
use sillage.Reader.Replay.{unwrap_or}
use sillage.Reader.Replay.Plan.{min_opt}

abbrev pub Nonempty : ℕ × ChunkEntry → Type 0
Nonempty p = p.0 < p.1.end_slot_exclusive

abbrev pub Below : ℕ → Tree → Type 0
Below n t = All (λ (p : ℕ × ChunkEntry). p.0 < n) t

-- In a tree of nonempty chunks every chunk starts below the end of the last.
pub Above-last :
    (k : ℕ) (p : ℕ × ChunkEntry) (t : Tree)
    → Above k (p ∷ t)
    → All Nonempty (p ∷ t)
    → k < unwrap_or (last_end (p ∷ t)) 0
unfolding last_end
Above-last k p [] a h = ground (arith, a.0, h.0)
Above-last k p (q ∷ t) a h = Above-last k q t a.1 h.1

pub last_end-Below : (t : Tree) → Ascending t → All Nonempty t → Below (unwrap_or (last_end t) 0) t
unfolding last_end
last_end-Below [] a h = tt
last_end-Below (p ∷ []) a h = (h.0, tt)
last_end-Below (p ∷ q ∷ t) a h = (Above-last p.0 q t a.0 h.1, last_end-Below (q ∷ t) a.1 h.1)

pub Below-le : (m n : ℕ) (t : Tree) → m ≤ n → Below m t → Below n t
Below-le m n [] le h = tt
Below-le m n (p ∷ t) le h = (omega (arith, le, h.0), Below-le m n t le h.1)

-- The chunks of a tree that end after a slot.
abbrev pub ending_after : ℕ → Tree → List ChunkEntry
ending_after from_slot t =
    map (λ (p : ℕ × ChunkEntry). p.1)
      (filterb (λ (p : ℕ × ChunkEntry). ltb from_slot p.1.end_slot_exclusive) t)

pub overlaps-all :
    (from_slot to_slot : ℕ) (t : Tree)
    → Below to_slot t
    → filterb (overlaps from_slot to_slot) t
      ≡ filterb (λ (p : ℕ × ChunkEntry). ltb from_slot p.1.end_slot_exclusive) t
overlaps-all from_slot to_slot [] h = refl
overlaps-all from_slot to_slot (p ∷ t) h = ground (arith, h.0, overlaps-all from_slot to_slot t h.1)

pub max_opt-le :
    (a b : Option ℕ)
    → (unwrap_or a 0 ≤ unwrap_or (max_opt a b) 0) × (unwrap_or b 0 ≤ unwrap_or (max_opt a b) 0)
max_opt-le a b = ground arith

-- A slot is at most another, if there is one.
abbrev pub at_most : Option ℕ → ℕ → Bool
at_most none k = false
at_most (some f) k = leb f k

pub min_opt-at_most :
    (a b : Option ℕ) (k : ℕ) → (at_most a k || at_most b k) ≡ true → at_most (min_opt a b) k ≡ true
min_opt-at_most a b k h = ground (arith, h)

abbrev pub From : Option ℕ → Tree → Type 0
From o t = All (λ (p : ℕ × ChunkEntry). at_most o p.0 ≡ true) t

pub From-min : (a b : Option ℕ) (t : Tree) → From a t → From (min_opt a b) t
From-min a b [] h = tt
From-min a b (p ∷ t) h = (min_opt-at_most a b p.0 (ground (arith, h.0)), From-min a b t h.1)

pub From-min_right : (a b : Option ℕ) (t : Tree) → From b t → From (min_opt a b) t
From-min_right a b [] h = tt
From-min_right a b (p ∷ t) h =
    (min_opt-at_most a b p.0 (ground (arith, h.0)), From-min_right a b t h.1)

pub Above-From : (k : ℕ) (t : Tree) → Above k t → From (some k) t
Above-From k [] a = tt
Above-From k (p ∷ t) a = (ground (arith, a.0), Above-From k t a.1)

pub first_key-From : (t : Tree) → Ascending t → From (first_key t) t
first_key-From [] a = tt
first_key-From (p ∷ t) a = (ground arith, Above-From p.0 t a.0)

-- A chunk of the tree starts at the slot.
abbrev pub starts_at : ℕ → Tree → Bool
starts_at f t = anyb (λ (p : ℕ × ChunkEntry). eqb p.0 f) t

pub first_key-starts_at : (t : Tree) (f : ℕ) → first_key t ≡ some f → starts_at f t ≡ true
first_key-starts_at [] f h = cc
first_key-starts_at (p ∷ t) f h = ground (arith, h)

pub min_opt-some : (a b : Option ℕ) (f : ℕ) → min_opt a b ≡ some f → (a ≡ some f) ⊎ (b ≡ some f)
min_opt-some none b f h = inr h
min_opt-some (some a) none f h = inl h
min_opt-some (some a) (some b) f h = elim (Bool-cases (leb a b)) [
  | inl q ↦ inl (ground (arith, h, q))
  | inr q ↦ inr (ground (arith, h, q))
]
