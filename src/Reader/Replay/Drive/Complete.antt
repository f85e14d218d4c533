-- ===== src/Reader/Replay/Drive/Complete.antt =====
-- The loop of `drive_replay` of sillage-reader/src/replay.rs as a whole.
use sillage.Prelude.{
  ℕ, zero, suc, ◌<◌, ◌≡◌, ◌≢◌, refl, sym, ◌∙◌, inl, inr, Option, none, some, Bool, true, false, [],
  ◌∷◌, if◌then◌else◌, Result, ok, err, ok_inj, ap, arith, All, ltb, length, Bool-cases, subst,
}
use sillage.Common.Update.{SubscribeUpdate}
use sillage.Common.Roaring.{Roaring}
use sillage.Common.Packages.{Packages}
use sillage.Reader.Decoded.{DecodedChunk, DecodeError}
use sillage.Reader.Replay.Plan.{ChunkPlan}
use sillage.Reader.Replay.Cursor.{Item}
use sillage.Reader.Replay.Drive.{
  Surroundings, Session, ReplayStats, DriveError, decoding, panicked, out_of_fuel, internal,
  make_stats, emit, peek_all, best_of, take_at, drive, peeked_of,
}
use sillage.Reader.Replay.Drive.Merge.{
  count, Cursors, Ready, total, Peeked, peek_all-Peeked, Chosen, Best, best_of-Chosen,
}
use sillage.Reader.Replay.Drive.Sending.{
  Emitted, emit-Emitted, Sent, none_sent, stopped, Round, taken-Round, skipped-Sends, sent-Sends,
  stopped-Sends,
}
use sillage.Reader.Replay.Drive.Taken.{Peeked-total}

module _ (R : Roaring) (P : Packages) (load : ChunkPlan R → Result DecodeError DecodedChunk) where
  -- The cases of a round.
  pub data Outlook (cs : Cursors R P load) : Type 0 where
    failed : (e : DecodeError) → peek_all R P load cs ≡ err e → Outlook cs
    finished :
        (ready : Cursors R P load)
        → peek_all R P load cs ≡ ok ready
        → best_of R 0 ready none ≡ none
        → ((p : Item → Bool) → total R P load p cs ≡ 0)
        → Outlook cs
    chosen :
        (ready left : Cursors R P load) (i : ℕ) (x : Item)
        → peek_all R P load cs ≡ ok ready
        → best_of R 0 ready none ≡ some (i, x.slot)
        → take_at R i ready ≡ some (x, left)
        → Peeked R P load cs ready
        → ((from_slot : ℕ) → Round R P load from_slot cs x left)
        → Outlook cs

  none_shown :
      (p : Item → Bool) (cs : Cursors R P load)
      → All (Ready R P load) cs
      → All (λ c. peeked_of R c ≡ none) cs
      → total R P load p cs ≡ 0
  unfolding total count
  none_shown p [] r n = refl
  none_shown p (c ∷ cs) r n = rw (r.0 n.0) (omega (arith, none_shown p cs r.1 n.1))

  pub outlook : (cs : Cursors R P load) → Outlook cs
  outlook cs = elim (peek_all-Peeked R P load cs) [
    | inr (e, q) ↦ failed e q
    | inl (ready, q, h) ↦
        go ready q h (best_of R 0 ready none) refl (best_of-Chosen R P load 0 ready none)
  ]
    where
      go :
          (ready : Cursors R P load)
          → peek_all R P load cs ≡ ok ready
          → Peeked R P load cs ready
          → (b : Option (ℕ × ℕ)) → best_of R 0 ready none ≡ b
          → Chosen R P load 0 ready none b
          → Outlook cs
      go ready q h none e (n, shown) =
          finished ready q e
            (λ p. sym (Peeked-total R P load p cs ready h.feeds) ∙ none_shown p ready h.shown shown)
      go ready q h (some (i, s)) e c = elim c.found [
        | inl bad ↦ cc
        | inr (k, ik, (x, xs, (left, t))) ↦
            let same : i ≡ k = omega (arith, ik) in
            chosen ready left i x q (rw xs e) (rw same t) h (λ f.
              taken-Round R P load f cs ready left k i x h
                (subst (λ u. Best R P load 0 ready none i u) (sym xs) c) t)
      ]

  module _ (scale : ℕ → ℕ) (encoded_len : SubscribeUpdate → ℕ) (env : ℕ → Surroundings)
      (from_slot : ℕ) where
    abbrev pub run : ℕ → Cursors R P load → Session → Result DriveError ReplayStats × Session
    run = drive scale encoded_len R P load env from_slot

    sends_step :
        (fuel : ℕ) (cs left : Cursors R P load) (t : Session) (x : Item)
        → Round R P load from_slot cs x left
        → ltb x.slot from_slot ≡ false
        → (r : Bool × Session) → Emitted x t r
        → Sent R P load from_slot left r.1 (run fuel left r.1)
        → Sent R P load from_slot cs t
            (if r.0 then run fuel left r.1 else (ok (make_stats false r.1), r.1))
    unfolding make_stats
    sends_step fuel cs left t x k q (true, t') (inl (o, l, bad)) h = cc
    sends_step fuel cs left t x k q (true, t') (inr (o, l)) (sent, h) =
        (x ∷ sent, sent-Sends R P load from_slot cs left x t t' _ _ sent k q o l h)
    sends_step fuel cs left t x k q (false, t') (inl (o, l, stop)) h =
        ([], none_sent R P load from_slot cs t t' _ o l (stopped R P load from_slot _ refl cs))
    sends_step fuel cs left t x k q (false, t') (inr (o, l)) h =
        (x ∷ [], stopped-Sends R P load from_slot cs left x t t' _ k q o l refl)

    -- The rounds of the loop.
    pub run_failed :
        (fuel : ℕ) (cs : Cursors R P load) (t : Session) (e : DecodeError)
        → peek_all R P load cs ≡ err e
        → run (suc fuel) cs t ≡ (err (decoding e), record t { closing = some internal })
    unfolding drive
    run_failed fuel cs t e q = rw (drive, q) refl

    pub run_finished :
        (fuel : ℕ) (cs ready : Cursors R P load) (t : Session)
        → peek_all R P load cs ≡ ok ready
        → best_of R 0 ready none ≡ none
        → run (suc fuel) cs t ≡ (ok (make_stats true t), t)
    unfolding drive
    run_finished fuel cs ready t q b = rw (drive, q, b) refl

    pub run_chosen :
        (fuel : ℕ) (cs ready left : Cursors R P load) (t : Session) (i : ℕ) (x : Item)
        → peek_all R P load cs ≡ ok ready
        → best_of R 0 ready none ≡ some (i, x.slot)
        → take_at R i ready ≡ some (x, left)
        → run (suc fuel) cs t ≡ (
            let r = emit scale encoded_len (env (length t.outbox)) x t in
            if ltb x.slot from_slot
            then run fuel left t
            else if r.0
            then run fuel left r.1
            else (ok (make_stats false r.1), r.1))
    unfolding drive
    run_chosen fuel cs ready left t i x q b a = rw (drive, q, b, a) refl

    -- What the loop puts into the channel.
    pub drive-Sent :
        (fuel : ℕ) (cs : Cursors R P load) (t : Session)
        → Sent R P load from_slot cs t (run fuel cs t)
    unfolding drive
    drive-Sent zero cs t =
        ([], none_sent R P load from_slot cs t t _ refl refl (stopped R P load from_slot _ refl cs))
    drive-Sent (suc fuel) cs t = elim (outlook cs) [
      | failed e q ↦ rw (run_failed fuel cs t e q) (
        [],
        none_sent R P load from_slot cs t _ _ refl refl (stopped R P load from_slot _ refl cs),
      )
      | finished ready q b over ↦
          rw (run_finished fuel cs ready t q b)
            ([], none_sent R P load from_slot cs t t _ refl refl (λ s e f p. over _))
      | chosen ready left i x q b a h' k ↦ elim (Bool-cases (ltb x.slot from_slot)) [
        | inl below ↦
            let (sent, h) = drive-Sent fuel left t in
            rw (run_chosen fuel cs ready left t i x q b a, below)
              (sent, skipped-Sends R P load from_slot cs left x t _ _ sent (k from_slot) below h)
        | inr due ↦
            let r : Bool × Session = emit scale encoded_len (env (length t.outbox)) x t in
            rw (run_chosen fuel cs ready left t i x q b a, due)
              (sends_step fuel cs left t x (k from_slot) due r
                (emit-Emitted scale encoded_len _ x t) (drive-Sent fuel left r.1))
      ]
    ]

    -- Enough rounds are given, so the loop ends by itself, and no `expect` of it panics.
    pub drive-Ends :
        (fuel : ℕ) (cs : Cursors R P load) (t : Session)
        → total R P load (λ x. true) cs < fuel
        → ((run fuel cs t).0 ≢ err out_of_fuel) × ((run fuel cs t).0 ≢ err panicked)
    unfolding drive
    drive-Ends zero cs t h = ground arith
    drive-Ends (suc fuel) cs t h = elim (outlook cs) [
      | failed e q ↦ rw (run_failed fuel cs t e q) (λ bad. cc, λ bad. cc)
      | finished ready q b over ↦ rw (run_finished fuel cs ready t q b) (λ bad. cc, λ bad. cc)
      | chosen ready left i x q b a h' k ↦
          let r : Bool × Session = emit scale encoded_len (env (length t.outbox)) x t in
          let less : total R P load (λ x. true) left < fuel =
            omega (arith, (k 0).totals (λ x. true), h) in
          elim (Bool-cases (ltb x.slot from_slot)) [
            | inl below ↦
                rw (run_chosen fuel cs ready left t i x q b a, below) (drive-Ends fuel left t less)
            | inr due ↦ elim (Bool-cases r.0) [
              | inl going ↦
                  rw (run_chosen fuel cs ready left t i x q b a, due, going)
                    (drive-Ends fuel left r.1 less)
              | inr stop ↦
                  rw (run_chosen fuel cs ready left t i x q b a, due, stop) (λ bad. cc, λ bad. cc)
            ]
          ]
    ]

    -- The statistics name the last slot of the session.
    pub drive-last :
        (fuel : ℕ) (cs : Cursors R P load) (t : Session) (s : ReplayStats)
        → (run fuel cs t).0 ≡ ok s
        → s.last_slot ≡ (run fuel cs t).1.last_slot
    unfolding drive make_stats
    drive-last zero cs t s e = cc
    drive-last (suc fuel) cs t s e = elim (outlook cs) [
      | failed x q ↦
          let bad : ◌≡◌ {A = Result DriveError ReplayStats} (err (decoding x)) (ok s) =
            rw (run_failed fuel cs t x q) at e in
          cc
      | finished ready q b over ↦
          let done : ◌≡◌ {A = Result DriveError ReplayStats} (ok (make_stats true t)) (ok s) =
            rw (run_finished fuel cs ready t q b) at e in
          rw (run_finished fuel cs ready t q b)
            (ap (λ (s : ReplayStats). s.last_slot) (sym (ok_inj done)))
      | chosen ready left i x q b a h' k ↦
          let r : Bool × Session = emit scale encoded_len (env (length t.outbox)) x t in
          let step = run_chosen fuel cs ready left t i x q b a in
          elim (Bool-cases (ltb x.slot from_slot)) [
            | inl below ↦
                let e' : (run fuel left t).0 ≡ ok s = rw (step, below) at e in
                rw (step, below) (drive-last fuel left t s e')
            | inr due ↦ elim (Bool-cases r.0) [
              | inl going ↦
                  let e' : (run fuel left r.1).0 ≡ ok s = rw (step, due, going) at e in
                  rw (step, due, going) (drive-last fuel left r.1 s e')
              | inr stop ↦
                  let done : ◌≡◌ {A = Result DriveError ReplayStats} (ok (make_stats false r.1))
                      (ok s) =
                    rw (step, due, stop) at e in
                  rw (step, due, stop) (ap (λ (s : ReplayStats). s.last_slot) (sym (ok_inj done)))
            ]
          ]
    ]
