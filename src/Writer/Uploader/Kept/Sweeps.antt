-- ===== src/Writer/Uploader/Kept/Sweeps.antt =====
-- A sweep of sillage-writer/src/uploader.rs deletes only what the bucket has.
use sillage.Prelude.{
  ℕ, ◌+◌, ◌%◌, ◌≡◌, refl, sym, subst, inl, inr, true, List, [], ◌∷◌, All, ltb, lookup, remove,
  u32_mod, arith, Option-cases, Bool-cases,
}
use sillage.Common.Disk.{
  Files, FilePath, Disk, attempt, remove_file, next_fault, Ext, zst, idx, meta_json, uploaded,
  path_eq, path_beq, path_beq_iff, is_file,
}
use sillage.Writer.Uploader.{
  UploadError, io, Stat, no_metadata, no_mtime, in_future, aged, is_marker, evict_file, evict_chunk,
  sweep_entries, sweep_retention,
}
use sillage.Writer.Uploader.Kept.{is_data, marker_of, Covered, Kept, Covered-remove, Kept-remove}

-- What a removal changes: nothing, or the file is gone.
remove_file-cases :
    (p : FilePath) (d : Disk) (Q : Files → Type 0)
    → Q d.files
    → Q (remove p d.files)
    → Q (remove_file {E = UploadError} io p d).1.files
unfolding remove_file attempt
remove_file-cases p d Q same gone = elim (Option-cases (lookup p d.files)) [
  | inl n ↦ rw (remove_file, n) same
  | inr (bs, n) ↦ elim (Bool-cases (next_fault d.faults)) [
    | inl f ↦ rw (remove_file, n, f) same
    | inr f ↦ rw (remove_file, n, f) gone
  ]
]

evict_file-cases :
    (p : FilePath) (e : Ext) (d : Disk) (Q : Files → Type 0)
    → Q d.files
    → Q (remove (record p { ext = e }) d.files)
    → Q (evict_file p e d).files
unfolding evict_file
evict_file-cases p e d Q same gone = elim (Bool-cases (is_file (record p { ext = e }) d.files)) [
  | inl b ↦ rw (evict_file, b) (remove_file-cases (record p { ext = e }) d Q same gone)
  | inr b ↦ rw (evict_file, b) same
]

module _ (orig bucket : Files) where
  -- The files of a marker's chunk are in the bucket.
  Safe : FilePath → Files → Type 0
  Safe p disk = (q : FilePath) → is_data q ≡ true → marker_of q ≡ p → Covered q disk bucket

  abbrev AllSafe : Files → Files → Type 0
  AllSafe listed disk = All (λ (e : FilePath × List ℕ). is_marker e.0 ≡ true → Safe e.0 disk) listed

  AllSafe-remove :
      (p : FilePath) (listed disk : Files) → AllSafe listed disk → AllSafe listed (remove p disk)
  unfolding Safe
  AllSafe-remove p [] disk h = tt
  AllSafe-remove p (e ∷ es) disk h = (
    (λ m q d same. Covered-remove p q disk bucket (h.0 m q d same)),
    AllSafe-remove p es disk h.1,
  )

  -- The state of a sweep: nothing is lost, and what is listed is safe, also that of the chunk
  -- at hand.
  Sweeping : FilePath → Files → Files → Type 0
  Sweeping p listed disk = Kept orig disk bucket × (Safe p disk × AllSafe listed disk)

  evict_file-Sweeping :
      (p : FilePath) (e : Ext) (listed : Files) (d : Disk)
      → is_marker p ≡ true
      → Sweeping p listed d.files
      → Sweeping p listed (evict_file p e d).files
  unfolding Sweeping Safe
  evict_file-Sweeping p e listed d m h =
      let target : FilePath = record p { ext = e } in
      let same_marker : is_data target ≡ true → path_beq (marker_of target) p ≡ true =
        λ t. ground arith in
      evict_file-cases p e d (Sweeping p listed) h (
        Kept-remove orig d.files bucket h.0 target
            (λ t. h.1.0 target t ((path_beq_iff (marker_of target) p).0 (same_marker t))),
        (
          (λ q t same. Covered-remove target q d.files bucket (h.1.0 q t same)),
          AllSafe-remove target listed d.files h.1.1,
        ),
      )

  evict_chunk-Sweeping :
      (p : FilePath) (listed : Files) (d : Disk)
      → is_marker p ≡ true
      → Sweeping p listed d.files
      → Sweeping p listed (evict_chunk p d).files
  unfolding evict_chunk
  evict_chunk-Sweeping p listed d m h = evict_file-Sweeping p uploaded listed _ m (
      evict_file-Sweeping p meta_json listed _ m
        (evict_file-Sweeping p idx listed _ m (evict_file-Sweeping p zst listed d m h)))

  sweep_entries-Kept :
      (stat : FilePath → Stat) (retention : ℕ) (listed : Files) (n : ℕ) (d : Disk)
      → Kept orig d.files bucket
      → AllSafe listed d.files
      → Kept orig (sweep_entries stat retention listed n d).1.files bucket
  unfolding sweep_entries Sweeping
  sweep_entries-Kept stat retention [] n d k h = k
  sweep_entries-Kept stat retention ((p, bs) ∷ m) n d k h = elim (Bool-cases (is_marker p)) [
    | inr b ↦ rw (sweep_entries, b) (sweep_entries-Kept stat retention m n d k h.1)
    | inl b ↦
        let swept = evict_chunk-Sweeping p m d b (k, (h.0 b, h.1)) in
        go b (stat p) refl (sweep_entries-Kept stat retention m n d k h.1) (
          sweep_entries-Kept stat retention m ((n + 1) % u32_mod) (evict_chunk p d) swept.0
            swept.1.1)
  ]
    where
      go :
          is_marker p ≡ true
          → (x : Stat) → stat p ≡ x
          → Kept orig (sweep_entries stat retention m n d).1.files bucket
          → Kept orig
              (sweep_entries stat retention m ((n + 1) % u32_mod) (evict_chunk p d)).1.files
              bucket
          → Kept orig (sweep_entries stat retention ((p, bs) ∷ m) n d).1.files bucket
      go b no_metadata q next swept = rw (sweep_entries, b, q) k
      go b no_mtime q next swept = rw (sweep_entries, b, q) next
      go b in_future q next swept = rw (sweep_entries, b, q) next
      go b (aged age) q next swept = elim (Bool-cases (ltb retention age)) [
        | inl old ↦ rw (sweep_entries, b, q, old) swept
        | inr young ↦ rw (sweep_entries, b, q, young) next
      ]

-- Every listed file is one of the disk.
present_cons :
    (p q : FilePath) (bs : List ℕ) (m : Files) → is_file q m ≡ true → is_file q ((p, bs) ∷ m) ≡ true
unfolding lookup
present_cons p q bs m h = ground arith

present_here : (p : FilePath) (bs : List ℕ) (m : Files) → is_file p ((p, bs) ∷ m) ≡ true
unfolding lookup
present_here p bs m = ground (arith, path_beq_iff p p)

present_later :
    (p : FilePath) (bs : List ℕ) (m listed : Files)
    → All (λ (e : FilePath × List ℕ). is_file e.0 m ≡ true) listed
    → All (λ (e : FilePath × List ℕ). is_file e.0 ((p, bs) ∷ m) ≡ true) listed
present_later p bs m [] h = tt
present_later p bs m (e ∷ es) h = (present_cons p e.0 bs m h.0, present_later p bs m es h.1)

All-present : (m : Files) → All (λ (e : FilePath × List ℕ). is_file e.0 m ≡ true) m
All-present [] = tt
All-present ((p, bs) ∷ m) = (present_here p bs m, present_later p bs m m (All-present m))

listed_safe :
    (orig bucket listed disk : Files)
    → Kept orig disk bucket
    → All (λ (e : FilePath × List ℕ). is_file e.0 disk ≡ true) listed
    → AllSafe orig bucket listed disk
unfolding Safe
listed_safe orig bucket [] disk k h = tt
listed_safe orig bucket (e ∷ es) disk k h = (
  (λ m q d same. k.backed q d (subst (λ u. is_file u disk ≡ true) (sym same) h.0)),
  listed_safe orig bucket es disk k h.1,
)

-- Whatever deletions fail and whatever the file system says of the markers, a sweep deletes no
-- file of a chunk that the bucket does not have.
pub sweep_retention-Kept :
    (orig bucket : Files) (stat : FilePath → Stat) (retention_hours : ℕ) (d : Disk)
    → Kept orig d.files bucket
    → Kept orig (sweep_retention stat retention_hours d).1.files bucket
unfolding sweep_retention
sweep_retention-Kept orig bucket stat retention_hours d k =
    sweep_entries-Kept orig bucket stat _ d.files 0 d k
      (listed_safe orig bucket d.files d.files k (All-present d.files))
