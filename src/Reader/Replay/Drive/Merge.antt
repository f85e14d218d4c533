-- ===== src/Reader/Replay/Drive/Merge.antt =====
-- One round of `drive_replay` of sillage-reader/src/replay.rs: peeking, choosing and taking.
use sillage.Prelude.{
  ℕ, suc, ◌+◌, ◌≤◌, ◌≡◌, refl, sym, ap, ◌∙◌, ◌⊎◌, inl, inr, Option, none, some, Bool, true, false,
  List, [], ◌∷◌, map, if◌then◌else◌, Result, ok, err, arith, All, Option-cases, Bool-cases,
  some_inj,
}
use sillage.Common.Roaring.{Roaring}
use sillage.Common.Packages.{Packages}
use sillage.Reader.Decoded.{DecodedChunk, DecodeError}
use sillage.Reader.Replay.Plan.{ChunkPlan}
use sillage.Reader.Replay.Cursor.{Item, StreamCursor, peek, take_peeked}
use sillage.Reader.Replay.Cursor.Feed.{Feed, ended, cursor_feed, Peeks, peek-Peeks}
use sillage.Reader.Replay.Drive.{peek_all, peeked_of, better, best_of, take_at}

-- How many messages pass a test.
unfoldable pub count : (Item → Bool) → List Item → ℕ
count p [] = 0
count p (x ∷ xs) = (if p x then 1 else 0) + count p xs

-- The slots never fall, and none is below `low`.
abbrev pub Rising : ℕ → List Item → Type 0
Rising low [] = Unit {0}
Rising low (x ∷ xs) = (low ≤ x.slot) × Rising x.slot xs

pub Rising-le : (low s : ℕ) (xs : List Item) → low ≤ s → Rising s xs → Rising low xs
Rising-le low s [] h r = tt
Rising-le low s (x ∷ xs) h r = (omega (arith, h, r.0), r.1)

module _ (R : Roaring) (P : Packages) (load : ChunkPlan R → Result DecodeError DecodedChunk) where
  abbrev pub Cursors : Type 0
  Cursors = List (Option (StreamCursor R))

  unfoldable pub feed_of : Option (StreamCursor R) → Feed
  feed_of none = ended
  feed_of (some c) = cursor_feed R P load c

  -- A cursor that was peeked shows its first message, if it has one.
  abbrev pub Ready : Option (StreamCursor R) → Type 0
  Ready c = peeked_of R c ≡ none → feed_of c ≡ ended

  -- How many of the messages that the cursors have still to give pass a test.
  unfoldable pub total : (Item → Bool) → Cursors → ℕ
  total p [] = 0
  total p (c ∷ cs) = count p (feed_of c).0 + total p cs

  abbrev pub Merged : ℕ → Cursors → Type 0
  Merged low cs = All (λ c. Rising low (feed_of c).0) cs

  -- The cursors after the peek have the same messages to give, and each shows its first.
  pub record Peeked (cs ready : Cursors) : Type 0 where
    pub feeds : map feed_of ready ≡ map feed_of cs
    pub shown : All Ready ready

  peek-feed :
      (c : StreamCursor R)
      → ((c' : StreamCursor R) × (peek R P load c ≡ ok c')
          × (feed_of (some c') ≡ feed_of (some c))
          × Ready (some c'))
        ⊎ ((e : DecodeError) × (peek R P load c ≡ err e) × ((feed_of (some c)).1 ≡ some e))
  unfolding feed_of cursor_feed
  peek-feed c = go (cursor_feed R P load c) refl (peek-Peeks R P load c)
    where
      go :
          (f : Feed)
          → cursor_feed R P load c ≡ f
          → Peeks R P load f (peek R P load c)
          → ((c' : StreamCursor R) × (peek R P load c ≡ ok c')
              × (feed_of (some c') ≡ feed_of (some c))
              × Ready (some c'))
            ⊎ ((e : DecodeError) × (peek R P load c ≡ err e) × ((feed_of (some c)).1 ≡ some e))
      go ([], none) q (c', r, n, h) = inl (c', r, (rw (n, h) (sym q)), λ k. rw (n, h) refl)
      go ([], some e) q r = inr (e, r, ap (λ (f : Feed). f.1) q)
      go (x ∷ xs, e) q (c', r, n, h) = inl (c', r, (rw (n, h) (sym q)), λ k. cc)

  pub peek_all-Peeked :
      (cs : Cursors)
      → ((ready : Cursors) × (peek_all R P load cs ≡ ok ready) × Peeked cs ready)
        ⊎ ((e : DecodeError) × (peek_all R P load cs ≡ err e))
  unfolding peek_all feed_of
  peek_all-Peeked [] = inl ([], refl, record { feeds = refl; shown = tt })
  peek_all-Peeked (none ∷ cs) = elim (peek_all-Peeked cs) [
    | inr (e, q) ↦ inr (e, rw q refl)
    | inl (ready, q, h) ↦ inl (
      none ∷ ready,
      rw q refl,
      record { feeds = ap (λ t. ended ∷ t) h.feeds; shown = (λ n. refl, h.shown) },
    )
  ]
  peek_all-Peeked (some c ∷ cs) = elim (peek-feed c) [
    | inr (e, q, bad) ↦ inr (e, rw q refl)
    | inl (c', q, same, k) ↦ elim (peek_all-Peeked cs) [
      | inr (e, r) ↦ inr (e, rw (q, r) refl)
      | inl (ready, r, h) ↦ inl (
        some c' ∷ ready,
        rw (q, r) refl,
        record { feeds = rw (same, h.feeds) refl; shown = (k, h.shown) },
      )
    ]
  ]

  -- No peek fails where no feed does.
  pub peek_all-ok :
      (cs : Cursors)
      → All (λ c. (feed_of c).1 ≡ none) cs
      → (ready : Cursors) × (peek_all R P load cs ≡ ok ready)
  unfolding peek_all
  peek_all-ok [] h = ([], refl)
  peek_all-ok (none ∷ cs) h = let (ready, q) = peek_all-ok cs h.1 in (none ∷ ready, rw q refl)
  peek_all-ok (some c ∷ cs) h = elim (peek-feed c) [
    | inr (e, q, bad) ↦ let wrong : none ≡ some e = sym h.0 ∙ bad in cc
    | inl (c', q, same, k) ↦
        let (ready, r) = peek_all-ok cs h.1 in (some c' ∷ ready, rw (q, r) refl)
  ]

  -- What the choice says: nothing is shown, or the message that is taken has the least slot shown.
  abbrev pub AtMost : ℕ → Option (StreamCursor R) → Type 0
  AtMost s c = (x : Item) → peeked_of R c ≡ some x → s ≤ x.slot

  pub record Best (i : ℕ) (cs : Cursors) (best : Option (ℕ × ℕ)) (j s : ℕ) : Type 0 where
    pub found :
        (best ≡ some (j, s))
        ⊎ ((k : ℕ) × (j ≡ i + k)
            × ((x : Item) × (x.slot ≡ s) × ((left : Cursors) × (take_at R k cs ≡ some (x, left)))))
    pub least : All (AtMost s) cs
    pub before : (j' s' : ℕ) → best ≡ some (j', s') → s ≤ s'

  abbrev pub Chosen : ℕ → Cursors → Option (ℕ × ℕ) → Option (ℕ × ℕ) → Type 0
  Chosen i cs best none = (best ≡ none) × All (λ c. peeked_of R c ≡ none) cs
  Chosen i cs best (some (j, s)) = Best i cs best j s

  Chosen-none :
      (i : ℕ) (c : Option (StreamCursor R)) (cs : Cursors) (best r : Option (ℕ × ℕ))
      → peeked_of R c ≡ none
      → Chosen (suc i) cs best r
      → Chosen i (c ∷ cs) best r
  unfolding take_at
  Chosen-none i c cs best none q (n, h) = (n, (q, h))
  Chosen-none i c cs best (some (j, s)) q h = record {
    least = ((λ x e. cc), h.least);
    before = h.before;
    found = elim h.found [
      | inl e ↦ inl e
      | inr (k, e, (x, es, (left, t))) ↦
          inr (suc k, omega (arith, e), (x, es, (c ∷ left, rw t refl)))
    ];
  }

  take_at_head :
      (c : Option (StreamCursor R)) (cs : Cursors) (x : Item)
      → peeked_of R c ≡ some x
      → (left : Cursors) × (take_at R 0 (c ∷ cs) ≡ some (x, left))
  unfolding take_at take_peeked
  take_at_head none cs x q = cc
  take_at_head (some k) cs x q = (some (take_peeked R k).1 ∷ cs, rw q refl)

  -- The message is better than the best so far.
  Best-new :
      (i : ℕ) (c : Option (StreamCursor R)) (cs : Cursors) (x : Item) (best : Option (ℕ × ℕ))
      (j s : ℕ)
      → peeked_of R c ≡ some x
      → ((j' s' : ℕ) → best ≡ some (j', s') → x.slot ≤ s')
      → Best (suc i) cs (some (i, x.slot)) j s
      → Best i (c ∷ cs) best j s
  unfolding take_at
  Best-new i c cs x best j s q lower h =
      let le : s ≤ x.slot = h.before i x.slot refl in
      record {
        least = ((λ y e. let same : x ≡ y = some_inj (sym q ∙ e) in rw same at le), h.least);
        before = λ j' s' e. omega (arith, lower j' s' e, le);
        found = elim h.found [
          | inl e ↦
              let (left, t) = take_at_head c cs x q in
              let (ej, es) : (i ≡ j) × (x.slot ≡ s) =
                (ap (λ (p : ℕ × ℕ). p.0) (some_inj e), ap (λ (p : ℕ × ℕ). p.1) (some_inj e)) in
              inr (0, omega (arith, ej), (x, es, (left, t)))
          | inr (k, e, (y, es, (left, t))) ↦
              inr (suc k, omega (arith, e), (y, es, (c ∷ left, rw t refl)))
        ];
      }

  -- It is not.
  Best-old :
      (i : ℕ) (c : Option (StreamCursor R)) (cs : Cursors) (x : Item) (j' s' j s : ℕ)
      → peeked_of R c ≡ some x
      → s' ≤ x.slot
      → Best (suc i) cs (some (j', s')) j s
      → Best i (c ∷ cs) (some (j', s')) j s
  unfolding take_at
  Best-old i c cs x j' s' j s q lower h =
      let le : s ≤ x.slot = omega (arith, lower, h.before j' s' refl) in
      record {
        least = ((λ y e. let same : x ≡ y = some_inj (sym q ∙ e) in rw same at le), h.least);
        before = h.before;
        found = elim h.found [
          | inl e ↦ inl e
          | inr (k, e, (y, es, (left, t))) ↦
              inr (suc k, omega (arith, e), (y, es, (c ∷ left, rw t refl)))
        ];
      }

  Chosen-some :
      (i : ℕ) (c : Option (StreamCursor R)) (cs : Cursors) (x : Item) (best r : Option (ℕ × ℕ))
      → peeked_of R c ≡ some x
      → Chosen (suc i) cs (if better i x.slot best then some (i, x.slot) else best) r
      → Chosen i (c ∷ cs) best r
  Chosen-some i c cs x none none q (n, h) = cc
  Chosen-some i c cs x none (some (j, s)) q h = Best-new i c cs x none j s q (λ j' s' e. cc) h
  Chosen-some i c cs x (some (j', s')) r q h = elim (Bool-cases (better i x.slot (some (j', s')))) [
    | inl b ↦ newer r b (rw b at h)
    | inr b ↦ older r b (rw b at h)
  ]
    where
      newer :
          (r : Option (ℕ × ℕ))
          → better i x.slot (some (j', s')) ≡ true
          → Chosen (suc i) cs (some (i, x.slot)) r
          → Chosen i (c ∷ cs) (some (j', s')) r
      newer none b (n, k) = cc
      newer (some (j, s)) b k =
          Best-new i c cs x (some (j', s')) j s q
            (λ j2 s2 e. let es : s' ≡ s2 = ap (λ (p : ℕ × ℕ). p.1) (some_inj e) in ground arith) k

      older :
          (r : Option (ℕ × ℕ))
          → better i x.slot (some (j', s')) ≡ false
          → Chosen (suc i) cs (some (j', s')) r
          → Chosen i (c ∷ cs) (some (j', s')) r
      older none b (n, k) = cc
      older (some (j, s)) b k = Best-old i c cs x j' s' j s q (ground arith) k

  pub best_of-Chosen :
      (i : ℕ) (cs : Cursors) (best : Option (ℕ × ℕ)) → Chosen i cs best (best_of R i cs best)
  unfolding best_of
  best_of-Chosen i [] none = (refl, tt)
  best_of-Chosen i [] (some (j, s)) = record {
    found = inl refl;
    least = tt;
    before = λ j' s' q. omega (arith, ap (λ (p : ℕ × ℕ). p.1) (some_inj q));
  }
  best_of-Chosen i (c ∷ cs) best = elim (Option-cases (peeked_of R c)) [
    | inl q ↦
        let e : best_of R i (c ∷ cs) best ≡ best_of R (suc i) cs best = rw (best_of, q) refl in
        rw e (Chosen-none i c cs best _ q (best_of-Chosen (suc i) cs best))
    | inr (x, q) ↦
        let new : Option (ℕ × ℕ) = if better i x.slot best then some (i, x.slot) else best in
        let e : best_of R i (c ∷ cs) best ≡ best_of R (suc i) cs new = rw (best_of, q) refl in
        rw e (Chosen-some i c cs x best _ q (best_of-Chosen (suc i) cs new))
  ]
