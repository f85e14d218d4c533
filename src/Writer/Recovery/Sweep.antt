-- ===== src/Writer/Recovery/Sweep.antt =====
-- What the recovery leaves on the disk, and from where a stream resumes
-- (sillage-writer/src/recovery.rs).
use sillage.Prelude.{
  Result, ok, err, ok_inj, ℕ, ◌≡◌, refl, ap, ◌∙◌, Option, none, some, Bool, true, false, not, ◌&&◌,
  ◌||◌, List, [], ◌∷◌, lookup, lookup-remove, All, anyb, leb, eqb, arith, Option-cases, Bool-cases,
  inl, inr,
}
use sillage.Common.Stream.{Stream, tx, acct, block, all_streams, stream_beq}
use sillage.Common.Disk.{
  FilePath, path_beq, path_beq_iff, path_eq, Files, Disk, IoError, attempt, remove_file, next_fault,
  later_faults, failed, is_file,
}
use sillage.Writer.Recovery.{
  list_dir, sweep_listed, sweep_dir, counted, sweep_streams, sweep_partials, is_sealed, latest_from,
  latest_sealed_end_slot, run_recovery,
}
use sillage.Writer.Recovery.Latest.{latest_from-covers_attained}
use sillage.Writer.Recovery.Listing.{list_dir-files, run_recovery-files}

-- Removing a partial file leaves every other file as it is, whether it works or not.
remove_file-final :
    (p q : FilePath) (d : Disk)
    → p.partial ≡ true
    → q.partial ≡ false
    → lookup q ((remove_file {E = IoError} (λ e. e) p d).1.files) ≡ lookup q d.files
unfolding remove_file attempt
remove_file-final p q d h g = elim (Option-cases (lookup p d.files)) [
  | inl e ↦ rw (remove_file, e) refl
  | inr (bs, e) ↦ elim (Bool-cases (next_fault d.faults)) [
    | inl e' ↦ rw (remove_file, e, attempt, e') refl
    | inr e' ↦
        rw (remove_file, e, attempt, e')
          (ground (arith, lookup-remove p q d.files, path_beq_iff p q))
  ]
]

sweep_dir-final :
    (s : Stream) (l : Files) (count : ℕ) (d : Disk) (q : FilePath)
    → q.partial ≡ false
    → lookup q ((sweep_dir s l count d).1.files) ≡ lookup q d.files
unfolding sweep_dir
sweep_dir-final s [] count d q g = refl
sweep_dir-final s ((p, bs) ∷ l) count d q g =
    elim (Bool-cases (stream_beq p.stream s && p.partial)) [
      | inr e ↦ rw (sweep_dir, e) (sweep_dir-final s l count d q g)
      | inl e ↦
          let (r, d') = remove_file {E = IoError} (λ e. e) p d in
          rw (sweep_dir, e)
            (sweep_dir-final s l (counted count r) d' q g
              ∙ remove_file-final p q d (ground (arith, e)) g)
    ]

sweep_listed-final :
    (s : Stream) (r : Result IoError Files) (count : ℕ) (d : Disk) (q : FilePath)
    → q.partial ≡ false
    → lookup q ((sweep_listed s r count d).1.files) ≡ lookup q d.files
unfolding sweep_listed
sweep_listed-final s (ok files) count d q g = sweep_dir-final s files count d q g
sweep_listed-final s (err e) count d q g = refl

sweep_streams-final :
    (ss : List Stream) (count : ℕ) (d : Disk) (q : FilePath)
    → q.partial ≡ false
    → lookup q ((sweep_streams ss count d).1.files) ≡ lookup q d.files
unfolding sweep_streams
sweep_streams-final [] count d q g = refl
sweep_streams-final (s ∷ ss) count d q g =
    let (r, d1) = list_dir d in
    let (n, d2) = sweep_listed s r count d1 in
    sweep_streams-final ss n d2 q g
    ∙ sweep_listed-final s r count d1 q g
    ∙ ap (λ (m : Files). lookup q m) (list_dir-files d)

-- On a disk that works, a listed partial file of the stream is gone, and no file appears.
remove_file-works :
    (p q : FilePath) (d : Disk)
    → d.faults ≡ []
    → ((remove_file {E = IoError} (λ e. e) p d).1.faults ≡ [])
      × (is_file q ((remove_file {E = IoError} (λ e. e) p d).1.files)
          ≡ (not (path_beq p q) && is_file q d.files))
unfolding remove_file attempt
remove_file-works p q d h = elim (Option-cases (lookup p d.files)) [
  | inl e ↦
      rw (remove_file, e)
        (h, ground (arith, e, path_beq_iff p q, ap (λ i. lookup i d.files) {x = p} {y = q}))
  | inr (bs, e) ↦ rw (remove_file, e, attempt, h) (refl, ground (arith, lookup-remove p q d.files))
]

listed : Stream → Files → FilePath → Bool
listed s [] q = false
listed s ((p, bs) ∷ l) q = ((stream_beq p.stream s && p.partial) && path_beq p q) || listed s l q

sweep_dir-works :
    (s : Stream) (l : Files) (count : ℕ) (d : Disk) (q : FilePath)
    → d.faults ≡ []
    → ((sweep_dir s l count d).1.faults ≡ [])
      × (is_file q ((sweep_dir s l count d).1.files) ≡ (not (listed s l q) && is_file q d.files))
unfolding sweep_dir listed
sweep_dir-works s [] count d q h = (h, refl)
sweep_dir-works s ((p, bs) ∷ l) count d q h =
    elim (Bool-cases (stream_beq p.stream s && p.partial)) [
      | inr e ↦ rw (sweep_dir, e) (sweep_dir-works s l count d q h)
      | inl e ↦
          let (r, d') = remove_file {E = IoError} (λ e. e) p d in
          let gone = remove_file-works p q d h in
          let later = sweep_dir-works s l (counted count r) d' q gone.0 in
          rw (sweep_dir, e) (later.0, ground (arith, later.1, gone.1))
    ]

listed-is_file :
    (s : Stream) (l : Files) (q : FilePath)
    → listed s l q ≡ ((stream_beq q.stream s && q.partial) && is_file q l)
unfolding listed lookup
listed-is_file s [] q = ground arith
listed-is_file s ((p, bs) ∷ l) q = elim (Bool-cases (path_beq p q)) [
  | inl e ↦
      let same : p ≡ q = (path_beq_iff p q).0 e in
      ground (arith, e, ap (λ i. stream_beq i.stream s && i.partial) same, listed-is_file s l q)
  | inr e ↦ ground (arith, e, listed-is_file s l q)
]

sweep_dir-gone :
    (s : Stream) (count : ℕ) (d : Disk) (q : FilePath)
    → d.faults ≡ []
    → ((sweep_dir s d.files count d).1.faults ≡ [])
      × (is_file q ((sweep_dir s d.files count d).1.files)
          ≡ (not (stream_beq q.stream s && q.partial) && is_file q d.files))
sweep_dir-gone s count d q h =
    let swept = sweep_dir-works s d.files count d q h in
    (swept.0, ground (arith, swept.1, listed-is_file s d.files q))

-- On a disk that works a directory is read.
list_dir-works : (d : Disk) → d.faults ≡ [] → list_dir d ≡ (ok d.files, d)
unfolding list_dir attempt
list_dir-works d h = rw (list_dir, attempt, h) refl

sweep_one-gone :
    (s : Stream) (ss : List Stream) (count : ℕ) (d : Disk)
    → d.faults ≡ []
    → sweep_streams (s ∷ ss) count d
      ≡ sweep_streams ss (sweep_dir s d.files count d).0 (sweep_dir s d.files count d).1
unfolding sweep_streams sweep_listed
sweep_one-gone s ss count d h =
    ap
      (λ (x : Result IoError Files × Disk).
        let (n, d2) = sweep_listed s x.0 count x.1 in sweep_streams ss n d2)
      (list_dir-works d h)

sweep_partials-gone :
    (d : Disk) (q : FilePath)
    → d.faults ≡ []
    → is_file q ((sweep_partials d).1.files) ≡ (not q.partial && is_file q d.files)
unfolding sweep_partials sweep_streams
sweep_partials-gone d q h =
    let (n, d') = sweep_dir tx d.files 0 d in
    let first = sweep_dir-gone tx 0 d q h in
    let (n', d'') = sweep_dir acct d'.files n d' in
    let second = sweep_dir-gone acct n d' q first.0 in
    let third = sweep_dir-gone block n' d'' q second.0 in
    let runs =
      sweep_one-gone tx (acct ∷ block ∷ []) 0 d h
      ∙ sweep_one-gone acct (block ∷ []) n d' first.0
      ∙ sweep_one-gone block [] n' d'' second.0 in
    ap (λ (x : ℕ × Disk). is_file q x.1.files) runs ∙ ground (arith, first.1, second.1, third.1)

-- The recovery leaves every file with a final name as it is, whichever removals fail.
pub run_recovery-lookup :
    (d : Disk) (q : FilePath)
    → q.partial ≡ false
    → lookup q ((run_recovery d).1.files) ≡ lookup q d.files
unfolding sweep_partials
run_recovery-lookup d q g =
    ap (λ (m : Files). lookup q m) (run_recovery-files d) ∙ sweep_streams-final all_streams 0 d q g

-- On a disk without failures no partial file is left after the recovery, and the files that are
-- left are those that had a final name before.
pub run_recovery-is_file :
    (d : Disk) (q : FilePath)
    → d.faults ≡ []
    → is_file q ((run_recovery d).1.files) ≡ (not q.partial && is_file q d.files)
run_recovery-is_file d q h =
    ap (λ (m : Files). is_file q m) (run_recovery-files d) ∙ sweep_partials-gone d q h

-- Where a stream has a slot to resume from, it is after all of its sealed chunks: no sidecar's
-- range ends later, and there is one whose range ends there.
pub latest_sealed_end_slot-covers :
    (s : Stream) (d d' : Disk) (e : ℕ)
    → latest_sealed_end_slot s d ≡ (ok (some e), d')
    → All (λ (f : FilePath × List ℕ). (not (is_sealed s f.0) || leb f.0.end_slot e) ≡ true) d.files
      × (anyb (λ (f : FilePath × List ℕ). is_sealed s f.0 && eqb f.0.end_slot e) d.files ≡ true)
unfolding latest_sealed_end_slot list_dir attempt
latest_sealed_end_slot-covers s d d' e h = elim (Bool-cases (next_fault d.faults)) [
  | inl f ↦
      let bad : ◌≡◌ {A = Result IoError (Option ℕ) × Disk}
          (err failed, record d { faults = later_faults d.faults }) (ok (some e), d') =
        rw (latest_sealed_end_slot, f) at h in
      cc
  | inr f ↦
      let read : ◌≡◌ {A = Result IoError (Option ℕ) × Disk}
          (
            ok (latest_from s d.files none),
            record { files = d.files; faults = later_faults d.faults },
          )
          (ok (some e), d') =
        rw (latest_sealed_end_slot, f) at h in
      latest_from-covers_attained s d.files e
        (ok_inj (ap (λ (x : Result IoError (Option ℕ) × Disk). x.0) read))
]
