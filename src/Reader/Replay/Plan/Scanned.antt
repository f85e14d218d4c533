-- ===== src/Reader/Replay/Plan/Scanned.antt =====
-- From the writer's index to the reader's plan: what `plan_replay` of sillage-reader/src/replay.rs
-- selects in a chunk whose index sillage-writer/src/index.rs wrote.
use mathlib.Core.Bool.{◌&&◌}
use sillage.Prelude.{
  true, false, Result, filterb, ap, refl, inl, inr, Bool-cases, if◌then◌else◌, ℕ, ◌<◌, ◌≡◌, sym,
  subst, ◌∙◌, some, Bool, String, List, [], ◌∷◌, map, ltb, length, anyb, ok, ok_inj, u32_mod, arith,
}
use sillage.Common.Stream.{tx}
use sillage.Common.Update.{SubscribeUpdate}
use sillage.Common.Packages.{HeaderCodec, Packages}
use sillage.Common.Roaring.{Roaring}
use sillage.Reader.Index.{ChunkIndex, parse_chunk_index}
use sillage.Reader.Filter.{Base58, FilterTransactions, filter_tx}
use sillage.Reader.Filter.Passes.{tx_passes}
use sillage.Reader.Filter.Scan.{scanned, index_file, filter_tx-scan}
use sillage.Reader.Catalog.{ChunkEntry}
use sillage.Reader.Subscription.{SubscriptionFilters}
use sillage.Reader.Replay.Plan.{ChunkPlan, plan_chunk, named_bitmaps_of}
use sillage.Reader.Replay.Cursor.{Item, item_at}
use sillage.Reader.Decoded.{DecodedChunk, DecodeError}
use sillage.Reader.Replay.Plan.Selection.{union_all-contains, item_at-names}

-- Something is in the list.
abbrev pub is_cons : {A : Type 0} → List A → Bool
is_cons [] = false
is_cons (x ∷ xs) = true

module _ (R : Roaring) (codec : HeaderCodec) (decode : Base58) (us : List SubscribeUpdate)
    (start_slot end_slot : ℕ) (raw : List ℕ) (idx : ChunkIndex) where
  -- Some filter passes the message at the ordinal, where there is one.
  abbrev pub any_passes : List (String × FilterTransactions) → ℕ → Bool
  any_passes fs n =
      ltb n (length us)
      && anyb (λ (p : String × FilterTransactions). tx_passes decode (scanned tx us n) p.1) fs

  -- The names of the filters that pass it.
  abbrev pub passing_names : List (String × FilterTransactions) → ℕ → List String
  passing_names [] n = []
  passing_names (f ∷ fs) n =
      if ltb n (length us) && tx_passes decode (scanned tx us n) f.1
      then f.0 ∷ passing_names fs n
      else passing_names fs n

  any-names :
      (fs : List (String × FilterTransactions)) (n : ℕ)
      → any_passes fs n ≡ is_cons (passing_names fs n)
  any-names [] n = ground arith
  any-names (f ∷ fs) n = ground (arith, any-names fs n)

  module _ (written : index_file R codec tx us start_slot end_slot ≡ ok raw)
      (small : length raw < u32_mod) (few : length us < u32_mod)
      (parses : parse_chunk_index codec (some raw) ≡ ok idx) where
    one_filter :
        (f : FilterTransactions) (n : ℕ)
        → R.contains (filter_tx R decode idx f) n
          ≡ (ltb n (length us) && tx_passes decode (scanned tx us n) f)
    one_filter f n =
        let (idx', e, h) =
          filter_tx-scan R codec decode us start_slot end_slot raw f written small few in
        let same : idx' ≡ idx = ok_inj (sym e ∙ parses) in
        subst
          (λ i.
            R.contains (filter_tx R decode i f) n
            ≡ (ltb n (length us) && tx_passes decode (scanned tx us n) f))
          same (h n)

    anyb-filters :
        (fs : List (String × FilterTransactions)) (n : ℕ)
        → anyb
            (λ (p : String × R.Bitmap). R.contains p.1 n)
            (map (λ (p : String × FilterTransactions). (p.0, filter_tx R decode idx p.1)) fs)
          ≡ any_passes fs n
    anyb-filters [] n = ground arith
    anyb-filters (f ∷ fs) n = rw (one_filter f.1 n, anyb-filters fs n) (ground arith)

    -- A transaction is selected for a replay exactly where the writer put one at the ordinal
    -- and it passes one of the subscription's filters, for fewer than 2 ^ 32 messages and an
    -- index file below 4 GiB.
    pub plan_chunk-scan :
        (parsed : SubscriptionFilters) (entry : ChunkEntry) (n : ℕ)
        → R.contains (plan_chunk R decode tx parsed entry idx).selected n
          ≡ any_passes parsed.transactions n
    unfolding plan_chunk named_bitmaps_of
    plan_chunk-scan parsed entry n =
        let named = named_bitmaps_of R decode tx parsed idx in
        union_all-contains R named R.empty n
        ∙ rw (R.contains-empty n) (anyb-filters parsed.transactions n)

    names-filters :
        (fs : List (String × FilterTransactions)) (n : ℕ)
        → map
            (λ (p : String × R.Bitmap). p.0)
            (filterb
              (λ (p : String × R.Bitmap). R.contains p.1 n)
              (map (λ (p : String × FilterTransactions). (p.0, filter_tx R decode idx p.1)) fs))
          ≡ passing_names fs n
    names-filters [] n = refl
    names-filters (f ∷ fs) n =
        elim (Bool-cases (ltb n (length us) && tx_passes decode (scanned tx us n) f.1)) [
          | inl q ↦ rw (one_filter f.1 n, q) (ap (λ t. f.0 ∷ t) (names-filters fs n))
          | inr q ↦ rw (one_filter f.1 n, q) (names-filters fs n)
        ]

    -- A transaction that a replay decodes at an ordinal goes out with the names of exactly those
    -- filters of the subscription that the message which the writer put there passes, in the
    -- order of the subscription; it is selected where there is one. There are fewer than 2 ^ 32
    -- messages and the index file is below 4 GiB.
    pub plan_chunk-names :
        (P : Packages) (load : ChunkPlan R → Result DecodeError DecodedChunk)
        (parsed : SubscriptionFilters) (entry : ChunkEntry) (chunk : DecodedChunk) (ord : ℕ)
        (item : Item)
        → item_at R P load (plan_chunk R decode tx parsed entry idx) chunk ord ≡ ok item
        → (item.names ≡ passing_names parsed.transactions ord)
          × (R.contains (plan_chunk R decode tx parsed entry idx).selected ord
              ≡ is_cons (passing_names parsed.transactions ord))
    unfolding named_bitmaps_of
    plan_chunk-names P load parsed entry chunk ord item h = (
      item_at-names R decode P load tx parsed entry idx chunk ord item h
          ∙ names-filters parsed.transactions ord,
      plan_chunk-scan parsed entry ord ∙ any-names parsed.transactions ord,
    )
