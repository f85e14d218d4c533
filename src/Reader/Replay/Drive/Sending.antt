-- ===== src/Reader/Replay/Drive/Sending.antt =====
-- What `drive_replay` of sillage-reader/src/replay.rs puts into the channel.
use sillage.Prelude.{
  ℕ, ◌+◌, ◌≤◌, ◌≡◌, refl, sym, ap, ◌∙◌, ◌⊎◌, inl, inr, Option, none, some, Bool, true, false, List,
  [], ◌∷◌, ◌++◌, map, if◌then◌else◌, Result, ok, err, arith, All, leb, ltb, Bool-cases,
}
use mathlib.Core.List.{append_assoc, append-nil}
use sillage.Common.Update.{SubscribeUpdate}
use sillage.Common.Roaring.{Roaring}
use sillage.Common.Packages.{Packages}
use sillage.Reader.Decoded.{DecodedChunk, DecodeError}
use sillage.Reader.Pacing.{Pacer, LagAction, on_time, warn, drop_client, observe_emit}
use sillage.Reader.Replay.{set_filters}
use sillage.Reader.Replay.Plan.{ChunkPlan}
use sillage.Reader.Replay.Cursor.{Item}
use sillage.Reader.Replay.Drive.{
  Delivery, delivered, timed_out, receiver_gone, Surroundings, Session, ReplayStats, DriveError,
  settle, emit, take_at,
}
use sillage.Reader.Replay.Drive.Merge.{
  count, Rising, Rising-le, Cursors, total, Merged, Peeked, Best,
}
use sillage.Reader.Replay.Drive.Taken.{taken-total, taken-Merged, Peeked-total, Peeked-All}

-- A message as the client gets it.
abbrev pub message_of : Item → SubscribeUpdate
message_of x = set_filters x.update x.names

abbrev pub last_of : List Item → Option ℕ → Option ℕ
last_of [] d = d
last_of (x ∷ xs) d = last_of xs (some x.slot)

-- A message is sent, or nothing is and the replay ends.
abbrev pub Emitted : Item → Session → Bool × Session → Type 0
Emitted x t (going, t') =
    ((t'.outbox ≡ t.outbox) × (t'.last_slot ≡ t.last_slot) × (going ≡ false))
    ⊎ ((t'.outbox ≡ t.outbox ++ (message_of x ∷ [])) × (t'.last_slot ≡ some x.slot))

settle_keeps :
    (r : LagAction × Pacer) (t : Session)
    → ((settle r t).1.outbox ≡ t.outbox) × ((settle r t).1.last_slot ≡ t.last_slot)
unfolding settle
settle_keeps (on_time, p) t = (refl, refl)
settle_keeps (warn lag, p) t = (refl, refl)
settle_keeps (drop_client lag, p) t = (refl, refl)

module _ (scale : ℕ → ℕ) (encoded_len : SubscribeUpdate → ℕ) where
  pub emit-Emitted :
      (env : Surroundings) (x : Item) (t : Session) → Emitted x t (emit scale encoded_len env x t)
  unfolding emit
  emit-Emitted env x t = elim (Bool-cases env.cancelled) [
    | inl q ↦ rw q (inl (refl, refl, refl))
    | inr q ↦ go env.delivery refl q
  ]
    where
      go :
          (d : Delivery)
          → env.delivery ≡ d
          → env.cancelled ≡ false
          → Emitted x t (emit scale encoded_len env x t)
      go delivered e q = rw (q, e) (inr (settle_keeps (observe_emit env.emit_now _ _) _))
      go timed_out e q = rw (q, e) (inl (refl, refl, refl))
      go receiver_gone e q = rw (q, e) (inl (refl, refl, refl))

-- The messages that are due and pass a test.
abbrev pub due : ℕ → (Item → Bool) → Item → Bool
due from_slot p x = if leb from_slot x.slot then p x else false

module _ (R : Roaring) (P : Packages) (load : ChunkPlan R → Result DecodeError DecodedChunk)
    (from_slot : ℕ) where
  -- The messages `sent` by a loop over the cursors that ends with `r` and `t'`.
  pub record Sends (cs : Cursors R P load) (t : Session) (r : Result DriveError ReplayStats)
      (t' : Session) (sent : List Item) : Type 0 where
    pub outbox : t'.outbox ≡ t.outbox ++ map message_of sent
    pub last : t'.last_slot ≡ last_of sent t.last_slot
    pub above : All (λ x. from_slot ≤ x.slot) sent
    pub once : (p : Item → Bool) → count p sent ≤ total R P load (due from_slot p) cs
    pub all :
        (s : ReplayStats)
        → r ≡ ok s
        → s.drained ≡ true
        → (p : Item → Bool) → count p sent ≡ total R P load (due from_slot p) cs
    pub order : (low : ℕ) → Merged R P load low cs → Rising low sent

  abbrev pub Sent : Cursors R P load → Session → Result DriveError ReplayStats × Session → Type 0
  Sent cs t (r, t') = (sent : List Item) × Sends cs t r t' sent

  -- Nothing is sent, and the loop does not end for want of messages.
  pub none_sent :
      (cs : Cursors R P load) (t t' : Session) (r : Result DriveError ReplayStats)
      → t'.outbox ≡ t.outbox
      → t'.last_slot ≡ t.last_slot
      → ((s : ReplayStats)
          → r ≡ ok s
          → s.drained ≡ true
          → (p : Item → Bool) → total R P load p cs ≡ 0)
      → Sends cs t r t' []
  unfolding count
  none_sent cs t t' r o l d = record {
    outbox = o ∙ sym (append-nil t.outbox);
    last = l;
    above = tt;
    once = λ p. omega arith;
    all = λ s e f p. sym (d s e f _);
    order = λ low m. tt;
  }

  -- The loop did not end for want of messages.
  pub stopped :
      (r : Result DriveError ReplayStats)
      → (elim r [ ok s ↦ s.drained | err e ↦ false ]) ≡ false
      → (cs : Cursors R P load) (s : ReplayStats) → r ≡ ok s
      → s.drained ≡ true
      → (p : Item → Bool) → total R P load p cs ≡ 0
  stopped (ok s') d cs s e f p =
      let same : s'.drained ≡ s.drained = ap (λ r. elim r [ ok s ↦ s.drained | err e ↦ false ]) e in
      let bad : false ≡ true = sym d ∙ same ∙ f in cc
  stopped (err e') d cs s e f p = cc

  -- A round: `x` is taken from the cursors, and `left` is what they have still to give.
  pub record Round (cs : Cursors R P load) (x : Item) (left : Cursors R P load) : Type 0 where
    pub totals :
        (p : Item → Bool) → total R P load p cs ≡ (if p x then 1 else 0) + total R P load p left
    pub merged : (low : ℕ) → Merged R P load low cs → (low ≤ x.slot) × Merged R P load x.slot left

  pub taken-Round :
      (cs ready left : Cursors R P load) (k i : ℕ) (x : Item)
      → Peeked R P load cs ready
      → Best R P load 0 ready none i x.slot
      → take_at R k ready ≡ some (x, left)
      → Round cs x left
  taken-Round cs ready left k i x h b t = record {
    totals = λ p.
        sym (Peeked-total R P load p cs ready h.feeds) ∙ taken-total R P load p k ready left x t;
    merged = λ low m.
        taken-Merged R P load low k ready left x h.shown b.least
          (Peeked-All R P load (λ f. Rising low f.0) cs ready h.feeds m) t;
  }

  -- A message below the first slot is skipped.
  pub skipped-Sends :
      (cs left : Cursors R P load) (x : Item) (t t' : Session) (r : Result DriveError ReplayStats)
      (sent : List Item)
      → Round cs x left
      → ltb x.slot from_slot ≡ true
      → Sends left t r t' sent
      → Sends cs t r t' sent
  skipped-Sends cs left x t t' r sent k q h =
      let same : (p : Item → Bool)
          → total R P load (due from_slot p) cs ≡ total R P load (due from_slot p) left =
        λ p. ground (arith, k.totals (due from_slot p)) in
      record {
        outbox = h.outbox;
        last = h.last;
        above = h.above;
        once = λ p. rw (same p) (h.once p);
        all = λ s e f p. h.all s e f p ∙ sym (same p);
        order = λ low m.
            let (le, m') = k.merged low m in Rising-le low x.slot sent le (h.order x.slot m');
      }

  -- A message is sent, and the loop goes on.
  pub sent-Sends :
      (cs left : Cursors R P load) (x : Item) (t t1 t' : Session)
      (r : Result DriveError ReplayStats) (sent : List Item)
      → Round cs x left
      → ltb x.slot from_slot ≡ false
      → t1.outbox ≡ t.outbox ++ (message_of x ∷ [])
      → t1.last_slot ≡ some x.slot
      → Sends left t1 r t' sent
      → Sends cs t r t' (x ∷ sent)
  unfolding count
  sent-Sends cs left x t t1 t' r sent k q o l h =
      let more : (p : Item → Bool)
          → total R P load (due from_slot p) cs
            ≡ (if p x then 1 else 0) + total R P load (due from_slot p) left =
        λ p. ground (arith, k.totals (due from_slot p)) in
      record {
        outbox =
            h.outbox
            ∙ ap (λ u. u ++ map message_of sent) o
            ∙ append_assoc t.outbox (message_of x ∷ []) (map message_of sent);
        last = h.last ∙ ap (last_of sent) l;
        above = (ground arith, h.above);
        once = λ p. rw (more p) (omega (arith, h.once p));
        all = λ s e f p. ap (λ n. (if p x then 1 else 0) + n) (h.all s e f p) ∙ sym (more p);
        order = λ low m. let (le, m') = k.merged low m in (le, h.order x.slot m');
      }

  -- A message is sent, and the loop ends.
  pub stopped-Sends :
      (cs left : Cursors R P load) (x : Item) (t t' : Session) (s : ReplayStats)
      → Round cs x left
      → ltb x.slot from_slot ≡ false
      → t'.outbox ≡ t.outbox ++ (message_of x ∷ [])
      → t'.last_slot ≡ some x.slot
      → s.drained ≡ false
      → Sends cs t (ok s) t' (x ∷ [])
  stopped-Sends cs left x t t' s k q o l d =
      sent-Sends cs left x t t' t' (ok s) [] k q o l
        (none_sent left t' t' (ok s) refl refl (stopped (ok s) d left))
