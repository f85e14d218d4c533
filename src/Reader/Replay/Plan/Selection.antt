-- ===== src/Reader/Replay/Plan/Selection.antt =====
-- What `plan_replay` of sillage-reader/src/replay.rs selects.
use sillage.Prelude.{
  ℕ, ◌≤◌, ◌≡◌, refl, sym, ap, inl, inr, Option, none, some, ◌||◌, String, List, [], ◌∷◌, map, ltb,
  if◌then◌else◌, Result, ok, err, ◌>>=◌, >>=-eq-ok, ok_inj, arith, anyb, filterb, Bool-cases,
  Result-cases,
}
use sillage.Common.Stream.{Stream, tx, acct, block}
use sillage.Common.Roaring.{Roaring}
use sillage.Common.Packages.{Packages}
use sillage.Reader.Index.{ChunkIndex, IndexError}
use sillage.Reader.Filter.{Base58}
use sillage.Reader.Catalog.{ChunkEntry, ChunkCatalog, summary, newest_end_slot, chunks_in_range}
use sillage.Reader.Subscription.{SubscriptionFilters, has_stream}
use sillage.Reader.Decoded.{DecodedChunk, DecodeError, decode_message}
use sillage.Reader.Replay.{unwrap_or}
use sillage.Reader.Replay.Plan.{
  PlanError, from_slot_too_old, other, oldest_slot, start_slot_of, ChunkPlan, ReplayPlan, union_all,
  plan_chunk, named_bitmaps_of, plan_chunks, plan_stream, plan_replay,
}
use sillage.Reader.Replay.Cursor.{Item, item_at}

start_slot_of-some :
    (oldest explicit : Option ℕ) (from_slot : ℕ)
    → start_slot_of oldest explicit ≡ ok from_slot
    → (first : ℕ) × (oldest ≡ some first)
      × (first ≤ from_slot)
      × (from_slot ≡ unwrap_or explicit first)
unfolding start_slot_of
start_slot_of-some none explicit f h = cc
start_slot_of-some (some first) none f h = (first, refl, omega (arith, ok_inj h), sym (ok_inj h))
start_slot_of-some (some first) (some r) f h = elim (Bool-cases (ltb r first)) [
  | inl q ↦
      let bad : ◌≡◌ {A = Result PlanError ℕ} (err (from_slot_too_old r first)) (ok f) = rw q at h in
      cc
  | inr q ↦
      let same : ◌≡◌ {A = Result PlanError ℕ} (ok r) (ok f) = rw q at h in
      let e : r ≡ f = ok_inj same in (first, refl, ground arith, sym e)
]

module _ (R : Roaring) where
  pub union_all-contains :
      (bs : List (String × R.Bitmap)) (acc : R.Bitmap) (n : ℕ)
      → R.contains (union_all R bs acc) n
        ≡ (R.contains acc n || anyb (λ (p : String × R.Bitmap). R.contains p.1 n) bs)
  unfolding union_all
  union_all-contains [] acc n = ground arith
  union_all-contains ((name, b) ∷ bs) acc n =
      rw (union_all-contains bs (R.union acc b) n, R.contains-union acc b n) (ground arith)

  -- A message of a planned chunk goes out with the names of the bitmaps that hold its ordinal.
  pub item_at-names :
      (decode : Base58) (P : Packages) (load : ChunkPlan R → Result DecodeError DecodedChunk)
      (s : Stream) (parsed : SubscriptionFilters) (entry : ChunkEntry) (idx : ChunkIndex)
      (chunk : DecodedChunk) (ord : ℕ) (item : Item)
      → item_at R P load (plan_chunk R decode s parsed entry idx) chunk ord ≡ ok item
      → item.names
        ≡ map
            (λ (p : String × R.Bitmap). p.0)
            (filterb
              (λ (p : String × R.Bitmap). R.contains p.1 ord)
              (named_bitmaps_of R decode s parsed idx))
  unfolding plan_chunk item_at
  item_at-names decode P load s parsed entry idx chunk ord item h =
      let (msg, d, made) = >>=-eq-ok (decode_message P chunk ord) _ h in
      ap (λ (x : Item). x.names) (sym (ok_inj made))

  module _ (decode : Base58) (index_of : Stream → ChunkEntry → Result IndexError ChunkIndex)
      (catalog : ChunkCatalog) (parsed : SubscriptionFilters) where
    plan_chunks-entries :
        (s : Stream) (entries : List ChunkEntry) (plans : List (ChunkPlan R))
        → plan_chunks R decode index_of s parsed entries ≡ ok plans
        → map (λ (p : ChunkPlan R). p.entry) plans ≡ entries
    unfolding plan_chunks plan_chunk
    plan_chunks-entries s [] plans h = rw⁻¹ (ok_inj h) refl
    plan_chunks-entries s (e ∷ es) plans h = elim (Result-cases (index_of s e)) [
      | inr (x, q) ↦
          let bad : ◌≡◌ {A = Result PlanError (List (ChunkPlan R))} (err (other x)) (ok plans) =
            rw (plan_chunks, q) at h in
          cc
      | inl (idx, q) ↦
          let more : (plan_chunks R decode index_of s parsed es >>= λ rest.
          ok (plan_chunk R decode s parsed e idx ∷ rest))
              ≡ ok plans =
            rw (plan_chunks, q) at h in
          let (rest, r, made) = >>=-eq-ok (plan_chunks R decode index_of s parsed es) _ more in
          rw⁻¹ (ok_inj made) (ap (λ t. e ∷ t) (plan_chunks-entries s es rest r))
    ]

    -- The chunks of a stream that a replay reads.
    abbrev pub chunks_of : Stream → ℕ → ℕ → List ChunkEntry
    chunks_of s from_slot to_slot =
        if has_stream s parsed then chunks_in_range catalog s from_slot to_slot else []

    plan_stream-entries :
        (s : Stream) (from_slot to_slot : ℕ) (plans : List (ChunkPlan R))
        → plan_stream R decode index_of s parsed catalog from_slot to_slot ≡ ok plans
        → map (λ (p : ChunkPlan R). p.entry) plans ≡ chunks_of s from_slot to_slot
    unfolding plan_stream
    plan_stream-entries s from_slot to_slot plans h = elim (Bool-cases (has_stream s parsed)) [
      | inl q ↦ rw q (plan_chunks-entries s _ plans (rw q at h))
      | inr q ↦
          let done : ◌≡◌ {A = Result PlanError (List (ChunkPlan R))} (ok []) (ok plans) =
            rw q at h in
          rw q (rw⁻¹ (ok_inj done) refl)
    ]

    -- The replay that `plan` describes.
    pub record Planned (explicit : Option ℕ) (plan : ReplayPlan R) : Type 0 where
      pub first : ℕ
      pub oldest_held : oldest_slot parsed (summary catalog) ≡ some first
      pub start : plan.from_slot ≡ unwrap_or explicit first
      pub start_le : first ≤ plan.from_slot
      pub end : plan.to_slot_exclusive ≡ unwrap_or (newest_end_slot catalog) 0
      pub of_tx :
          map (λ (p : ChunkPlan R). p.entry) plan.plans_tx
          ≡ chunks_of tx plan.from_slot plan.to_slot_exclusive
      pub of_acct :
          map (λ (p : ChunkPlan R). p.entry) plan.plans_acct
          ≡ chunks_of acct plan.from_slot plan.to_slot_exclusive
      pub of_block :
          map (λ (p : ChunkPlan R). p.entry) plan.plans_block
          ≡ chunks_of block plan.from_slot plan.to_slot_exclusive

    -- A replay that is planned starts at the slot that was asked for, or else at the oldest
    -- slot of the streams that the subscription names, never before that one; it reads to the
    -- newest end of the catalog, and plans for every named stream exactly the chunks that
    -- overlap these slots, in their order, and none for the others.
    pub plan_replay-Planned :
        (explicit : Option ℕ) (plan : ReplayPlan R)
        → plan_replay R decode index_of catalog parsed explicit ≡ ok plan
        → Planned explicit plan
    unfolding plan_replay
    plan_replay-Planned explicit plan h =
        let (from_slot, s, h1) =
          >>=-eq-ok (start_slot_of (oldest_slot parsed (summary catalog)) explicit) _ h in
        let to_slot = unwrap_or (newest_end_slot catalog) 0 in
        let (txs, t, h2) =
          >>=-eq-ok (plan_stream R decode index_of tx parsed catalog from_slot to_slot) _ h1 in
        let (accts, a, h3) =
          >>=-eq-ok (plan_stream R decode index_of acct parsed catalog from_slot to_slot) _ h2 in
        let (blocks, b, h4) =
          >>=-eq-ok (plan_stream R decode index_of block parsed catalog from_slot to_slot) _ h3 in
        let (first, o, le, e) =
          start_slot_of-some (oldest_slot parsed (summary catalog)) explicit from_slot s in
        rw⁻¹ (ok_inj h4) (record {
          first = first;
          oldest_held = o;
          start = e;
          start_le = le;
          end = refl;
          of_tx = plan_stream-entries tx from_slot to_slot txs t;
          of_acct = plan_stream-entries acct from_slot to_slot accts a;
          of_block = plan_stream-entries block from_slot to_slot blocks b;
        })
