-- ===== src/Reader/Replay/Drive/Taken.antt =====
-- What is left after a message was taken in `drive_replay` of sillage-reader/src/replay.rs.
use sillage.Prelude.{
  ℕ, zero, suc, ◌+◌, ◌≤◌, ◌≡◌, refl, sym, ap, ◌∙◌, inl, inr, Option, none, some, Bool, List, [],
  ◌∷◌, map, if◌then◌else◌, Result, arith, All, Option-cases, some_inj,
}
use sillage.Common.Roaring.{Roaring}
use sillage.Common.Packages.{Packages}
use sillage.Reader.Decoded.{DecodedChunk, DecodeError}
use sillage.Reader.Replay.Plan.{ChunkPlan}
use sillage.Reader.Replay.Cursor.{Item, StreamCursor, take_peeked}
use sillage.Reader.Replay.Cursor.Feed.{Feed, cursor_feed}
use sillage.Reader.Replay.Drive.{peeked_of, take_at}
use sillage.Reader.Replay.Drive.Merge.{
  count, Rising, Cursors, feed_of, Ready, total, Merged, AtMost,
}

-- The parts of a pair, and of a list, that two equal ones share.
module _ {A : Type 0} {B : Type 0} {a b : A} {u v : B} where
  pair_fst : ◌≡◌ {A = Option (A × B)} (some (a, u)) (some (b, v)) → a ≡ b
  pair_fst q = ap (λ (p : A × B). p.0) (some_inj q)

  pair_snd : ◌≡◌ {A = Option (A × B)} (some (a, u)) (some (b, v)) → u ≡ v
  pair_snd q = ap (λ (p : A × B). p.1) (some_inj q)

cons_inj : {A : Type 0} {a b : A} {u v : List A} → a ∷ u ≡ b ∷ v → (a ≡ b) × (u ≡ v)
cons_inj {a} {u} q = (
  ap (λ (l : List _). elim l [ [] ↦ a | x ∷ t ↦ x ]) q,
  ap (λ (l : List _). elim l [ [] ↦ u | x ∷ t ↦ t ]) q,
)

module _ (R : Roaring) (P : Packages) (load : ChunkPlan R → Result DecodeError DecodedChunk) where
  -- A cursor that shows a message has it first.
  shown_first :
      (c : StreamCursor R) (x : Item)
      → c.peeked ≡ some x
      → feed_of R P load (some c) ≡ (
        x ∷ (feed_of R P load (some (take_peeked R c).1)).0,
        (feed_of R P load (some (take_peeked R c).1)).1,
      )
  unfolding feed_of cursor_feed take_peeked
  shown_first c x q = rw q refl

  -- What is taken at the first place.
  taken_head :
      (c : Option (StreamCursor R)) (cs left : Cursors R P load) (x : Item)
      → take_at R 0 (c ∷ cs) ≡ some (x, left)
      → (c' : Option (StreamCursor R)) × (left ≡ c' ∷ cs)
        × (peeked_of R c ≡ some x)
        × (feed_of R P load c ≡ (x ∷ (feed_of R P load c').0, (feed_of R P load c').1))
  unfolding take_at take_peeked
  taken_head none cs left x t = cc
  taken_head (some c) cs left x t = elim (Option-cases c.peeked) [
    | inl n ↦
        let e : take_at R 0 (some c ∷ cs) ≡ none = rw (take_at, n) refl in
        let bad : ◌≡◌ {A = Option (Item × Cursors R P load)} none (some (x, left)) = sym e ∙ t in cc
    | inr (y, n) ↦
        let taken : Option (StreamCursor R) = some (take_peeked R c).1 in
        let e : take_at R 0 (some c ∷ cs) ≡ some (y, taken ∷ cs) = rw (take_at, n) refl in
        let same : y ≡ x = pair_fst (sym e ∙ t) in
        let shown : c.peeked ≡ some x = n ∙ ap (λ u. some u) same in
        (taken, sym (pair_snd (sym e ∙ t)), shown, shown_first c x shown)
  ]

  -- And at a later one.
  taken_tail :
      (k : ℕ) (c : Option (StreamCursor R)) (cs left : Cursors R P load) (x : Item)
      → take_at R (suc k) (c ∷ cs) ≡ some (x, left)
      → (rest : Cursors R P load) × (left ≡ c ∷ rest) × (take_at R k cs ≡ some (x, rest))
  unfolding take_at
  taken_tail k c cs left x t = elim (Option-cases (take_at R k cs)) [
    | inl n ↦
        let e : take_at R (suc k) (c ∷ cs) ≡ none = rw (take_at, n) refl in
        let bad : ◌≡◌ {A = Option (Item × Cursors R P load)} none (some (x, left)) = sym e ∙ t in cc
    | inr ((y, rest), n) ↦
        let e : take_at R (suc k) (c ∷ cs) ≡ some (y, c ∷ rest) = rw (take_at, n) refl in
        (rest, sym (pair_snd (sym e ∙ t)), n ∙ ap (λ u. some (u, rest)) (pair_fst (sym e ∙ t)))
  ]

  pub taken-total :
      (p : Item → Bool) (k : ℕ) (cs left : Cursors R P load) (x : Item)
      → take_at R k cs ≡ some (x, left)
      → total R P load p cs ≡ (if p x then 1 else 0) + total R P load p left
  unfolding take_at total count
  taken-total p k [] left x t = cc
  taken-total p zero (c ∷ cs) left x t =
      let (c', e, s, f) = taken_head c cs left x t in rw (e, f) (omega arith)
  taken-total p (suc k) (c ∷ cs) left x t =
      let (rest, e, r) = taken_tail k c cs left x t in
      rw e (omega (arith, taken-total p k cs rest x r))

  -- A cursor rises from the least slot that is shown.
  Rising-least :
      (low s : ℕ) (c : Option (StreamCursor R))
      → Ready R P load c
      → AtMost R P load s c
      → Rising low (feed_of R P load c).0
      → Rising s (feed_of R P load c).0
  unfolding feed_of
  Rising-least low s none ready least r = tt
  Rising-least low s (some c) ready least r = elim (Option-cases c.peeked) [
    | inl n ↦ rw (ready n) tt
    | inr (x, n) ↦
        let first = shown_first c x n in
        let r' : Rising low (x ∷ (feed_of R P load (some (take_peeked R c).1)).0) = rw first at r in
        rw first (least x n, r'.1)
  ]

  Merged-least :
      (low s : ℕ) (cs : Cursors R P load)
      → All (Ready R P load) cs
      → All (AtMost R P load s) cs
      → Merged R P load low cs
      → Merged R P load s cs
  Merged-least low s [] ready least r = tt
  Merged-least low s (c ∷ cs) ready least r =
      (Rising-least low s c ready.0 least.0 r.0, Merged-least low s cs ready.1 least.1 r.1)

  -- The cursors rise from the slot of the message that was taken.
  pub taken-Merged :
      (low k : ℕ) (cs left : Cursors R P load) (x : Item)
      → All (Ready R P load) cs
      → All (AtMost R P load x.slot) cs
      → Merged R P load low cs
      → take_at R k cs ≡ some (x, left)
      → (low ≤ x.slot) × Merged R P load x.slot left
  unfolding take_at
  taken-Merged low k [] left x ready least r t = cc
  taken-Merged low zero (c ∷ cs) left x ready least r t =
      let (c', e, s, f) = taken_head c cs left x t in
      let here : Rising low (x ∷ (feed_of R P load c').0) = rw f at r.0 in
      rw e (here.0, (here.1, Merged-least low x.slot cs ready.1 least.1 r.1))
  taken-Merged low (suc k) (c ∷ cs) left x ready least r t =
      let (rest, e, q) = taken_tail k c cs left x t in
      let (above, h) = taken-Merged low k cs rest x ready.1 least.1 r.1 q in
      rw e (above, (Rising-least low x.slot c ready.0 least.0 r.0, h))

  -- The peek changes nothing of it.
  pub Peeked-total :
      (p : Item → Bool) (cs ready : Cursors R P load)
      → map (feed_of R P load) ready ≡ map (feed_of R P load) cs
      → total R P load p ready ≡ total R P load p cs
  unfolding total
  Peeked-total p [] [] h = refl
  Peeked-total p [] (r ∷ rs) h = cc
  Peeked-total p (c ∷ cs) [] h = cc
  Peeked-total p (c ∷ cs) (r ∷ rs) h =
      let (e, es) = cons_inj h in rw (e, Peeked-total p cs rs es) refl

  pub Peeked-All :
      (Q : Feed → Type 0) (cs ready : Cursors R P load)
      → map (feed_of R P load) ready ≡ map (feed_of R P load) cs
      → All (λ c. Q (feed_of R P load c)) cs
      → All (λ c. Q (feed_of R P load c)) ready
  Peeked-All Q [] [] h m = tt
  Peeked-All Q [] (r ∷ rs) h m = cc
  Peeked-All Q (c ∷ cs) [] h m = tt
  Peeked-All Q (c ∷ cs) (r ∷ rs) h m =
      let (e, es) = cons_inj h in (rw e m.0, Peeked-All Q cs rs es m.1)

  -- The feeds end without an error.
  abbrev pub Sound : Feed → Type 0
  Sound f = f.1 ≡ none

  pub taken-Sound :
      (k : ℕ) (cs left : Cursors R P load) (x : Item)
      → take_at R k cs ≡ some (x, left)
      → All (λ c. Sound (feed_of R P load c)) cs
      → All (λ c. Sound (feed_of R P load c)) left
  unfolding take_at
  taken-Sound k [] left x t s = cc
  taken-Sound zero (c ∷ cs) left x t s =
      let (c', e, shown, f) = taken_head c cs left x t in
      let ends : (feed_of R P load c).1 ≡ (feed_of R P load c').1 = ap (λ (f : Feed). f.1) f in
      rw e (sym ends ∙ s.0, s.1)
  taken-Sound (suc k) (c ∷ cs) left x t s =
      let (rest, e, q) = taken_tail k c cs left x t in rw e (s.0, taken-Sound k cs rest x q s.1)
