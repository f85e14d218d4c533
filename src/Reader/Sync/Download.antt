-- ===== src/Reader/Sync/Download.antt =====
-- `download_chunk` of sillage-reader/src/sync.rs under faults of the disk and of the network.
use sillage.Prelude.{
  ℕ, zero, suc, ◌≡◌, refl, sym, ap, ◌∙◌, Option, none, some, false, List, [], ◌∷◌, eqb,
  if◌then◌else◌, Result, ok, err, insert, remove, length, arith, Bool-cases, Option-cases,
  Result-cases, inl, inr,
}
use sillage.Common.Disk.{
  Files, FilePath, Disk, M, ◌>>=◌, ◌>>◌, attempt, create, write_bytes, sync, Ext, zst, idx,
  meta_json, path_eq,
}
use sillage.Common.Disk.Runs.{Post, Runs, Runs-bind, attempt-Runs, rename-Runs}
use sillage.Writer.Chunker.Sidecar.{stem_path, Trio, Stage, Stage-insert, Stage-move, Stage-finish}
use sillage.Reader.Sync.{
  R2Chunk, SyncError, io, fetch_failed, no_attempts, get_file, attempts, get_with_retry,
  partial_path, download_file, download_chunk,
}

-- A run that keeps a condition on the files, whether it fails or not.
abbrev pub Keeps : (Files → Type 0) → {E A : Type 0} → M Disk E A → Type 0
Keeps P m = Runs (λ d. P d.files) (λ d. P d.files) m (λ _ d. P d.files)

Keeps-bind :
    {E A B : Type 0} (P : Files → Type 0) (m : M Disk E A) (f : A → M Disk E B)
    → Keeps P m
    → ((a : A) → Keeps P (f a))
    → Keeps P (m >>= f)
Keeps-bind P m f h k =
    Runs-bind (λ d. P d.files) (λ _ d. P d.files) (λ _ d. P d.files) (λ d. P d.files) m f h k

Post-failing :
    {E A : Type 0} (T P : Files → Type 0) (Q : A → Disk → Type 0) (x : Result E A × Disk)
    → ((m : Files) → P m → T m)
    → Post (λ d. P d.files) Q x
    → Post (λ d. T d.files) Q x
Post-failing T P Q (ok a, d) weak h = h
Post-failing T P Q (err e, d) weak h = weak d.files h

Post-kept :
    {E A : Type 0} (P : Files → Type 0) (x : Result E A × Disk)
    → Post (λ d. P d.files) (λ _ d. P d.files) x
    → P x.1.files
Post-kept P (ok a, d) h = h
Post-kept P (err e, d) h = h

-- A condition on the files that the contents of a partial file do not touch.
module _ (P : Files → Type 0) (dest : FilePath)
    (unmoved : (bs : List ℕ) (m : Files) → P m → P (insert dest bs m)) where
  get_file-Keeps : (answer : Option (List ℕ)) → Keeps P (get_file answer dest)
  unfolding get_file
  get_file-Keeps none = λ d p. p
  get_file-Keeps (some bs) =
      let step : (f : Files → Files) → ((m : Files) → P m → P (f m)) → Keeps P (attempt io f) =
        attempt-Runs io P P P (λ m p. p) in
      Keeps-bind P (create io dest >> write_bytes io dest bs >> sync io) _
        (Keeps-bind P (create io dest >> write_bytes io dest bs) _
          (Keeps-bind P (create io dest) _ (step (insert dest []) (unmoved []))
            (λ _. step (insert dest bs) (unmoved bs)))
          (λ _. step (λ m. m) (λ m p. p)))
        (λ _ d p. p)

  attempts-Keeps :
      (answer : ℕ → Option (List ℕ)) (n left : ℕ) → Keeps P (attempts answer dest n left)
  unfolding attempts
  attempts-Keeps answer n zero d p = p
  attempts-Keeps answer n (suc left) d p =
      let kept : P (get_file (answer n) dest d).1.files =
        Post-kept P (get_file (answer n) dest d) (get_file-Keeps (answer n) d p) in
      elim (Result-cases (get_file (answer n) dest d).0) [
        | inl (b, q) ↦ rw (attempts, q) kept
        | inr (e, q) ↦ elim (Bool-cases (eqb left 0)) [
          | inl z ↦ rw (attempts, q, z) kept
          | inr z ↦
              rw (attempts, q, z)
                (attempts-Keeps answer (suc n) left (get_file (answer n) dest d).1 kept)
        ]
      ]

-- A file of a chunk takes its final name.
download_file-Runs :
    (T P Q : Files → Type 0) (answer : ℕ → Option (List ℕ)) (n : ℕ) (final : FilePath)
    → ((m : Files) → P m → T m)
    → ((bs : List ℕ) (m : Files) → P m → P (insert (partial_path final) bs m))
    → ((m : Files) (bs : List ℕ) → P m → Q (insert final bs (remove (partial_path final) m)))
    → Runs (λ d. T d.files) (λ d. P d.files) (download_file answer n final) (λ _ d. Q d.files)
unfolding download_file get_with_retry
download_file-Runs T P Q answer n final weak unmoved moved =
    Runs-bind (λ d. T d.files) (λ _ d. P d.files) (λ _ d. Q d.files) (λ d. P d.files)
      (sync io >> get_with_retry answer (partial_path final) n) _
      (Runs-bind (λ d. T d.files) (λ _ d. P d.files) (λ _ d. P d.files) (λ d. P d.files) (sync io) _
        (attempt-Runs io T P P weak (λ m. m) (λ m p. p))
        (λ _ d p.
          Post-failing T P _ (attempts answer (partial_path final) 0 n d) weak
            (attempts-Keeps P (partial_path final) unmoved answer 0 n d p)))
      (λ _. rename-Runs io T P Q weak (partial_path final) final (λ m bs p found. moved m bs p))

-- However often the network and the disk fail, a download leaves a sidecar under its final name
-- only beside its payload and its index.
pub download_chunk-Trio :
    (answer : Ext → ℕ → Option (List ℕ)) (retry_attempts : ℕ) (c : R2Chunk) (d : Disk)
    → Trio d.files
    → Trio (download_chunk answer retry_attempts c d).1.files
unfolding download_chunk
download_chunk-Trio answer retry_attempts c d t =
    let s = c.stream in
    let a = c.start_slot in
    let b = c.end_slot in
    let path : Ext → FilePath = stem_path s a b in
    let payload : Runs (λ d. Trio d.files) (λ d. Trio d.files)
        (download_file (answer zst) retry_attempts (path zst))
        (λ _ d. Stage (path zst ∷ []) d.files) =
      download_file-Runs Trio Trio (Stage (path zst ∷ [])) (answer zst) retry_attempts (path zst)
        (λ m t. t) (λ bs m t. (Stage-insert [] (partial_path (path zst)) bs m refl (t, tt)).0)
        (λ m bs t.
          Stage-move [] (partial_path (path zst)) (path zst) bs m refl refl refl (t, tt)) in
    let index : Runs (λ d. Trio d.files) (λ d. Stage (path zst ∷ []) d.files)
        (download_file (answer idx) retry_attempts (path idx))
        (λ _ d. Stage (path idx ∷ path zst ∷ []) d.files) =
      download_file-Runs Trio (Stage (path zst ∷ [])) (Stage (path idx ∷ path zst ∷ []))
        (answer idx) retry_attempts (path idx) (λ m t. t.0)
        (λ bs m t. Stage-insert (path zst ∷ []) (partial_path (path idx)) bs m refl t)
        (λ m bs t.
          Stage-move (path zst ∷ []) (partial_path (path idx)) (path idx) bs m refl refl refl t) in
    let sidecar : Runs (λ d. Trio d.files) (λ d. Stage (path idx ∷ path zst ∷ []) d.files)
        (download_file (answer meta_json) retry_attempts (path meta_json)) (λ _ d. Trio d.files) =
      download_file-Runs Trio (Stage (path idx ∷ path zst ∷ [])) Trio (answer meta_json)
        retry_attempts (path meta_json) (λ m t. t.0)
        (λ bs m t.
          Stage-insert (path idx ∷ path zst ∷ []) (partial_path (path meta_json)) bs m refl t)
        (λ m bs t. (Stage-finish [] s a b (partial_path (path meta_json)) bs m refl t).0) in
    Post-kept Trio (download_chunk answer retry_attempts c d) (
      Runs-bind (λ d. Trio d.files) (λ _ d. Stage (path idx ∷ path zst ∷ []) d.files)
        (λ _ d. Trio d.files) (λ d. Trio d.files) _ _
        (Runs-bind (λ d. Trio d.files) (λ _ d. Stage (path zst ∷ []) d.files)
          (λ _ d. Stage (path idx ∷ path zst ∷ []) d.files) (λ d. Trio d.files) _ _ payload
          (λ _. index))
        (λ _. sidecar) d t)

-- The first answer that is not a failure, of as many attempts as there are.
abbrev pub first_answer : (ℕ → Option (List ℕ)) → ℕ → ℕ → Option (List ℕ)
first_answer answer n zero = none
first_answer answer n (suc left) = elim (answer n) [
  | some bs ↦ some bs
  | none ↦ first_answer answer (suc n) left
]

-- What a retried fetch comes to on a disk without faults.
abbrev pub fetched : FilePath → Files → ℕ → Option (List ℕ) → Result SyncError ℕ × Disk
fetched dest m retry_attempts none = (
  err (elim retry_attempts [ zero ↦ no_attempts | suc k ↦ fetch_failed ]),
  record { files = m; faults = [] },
)
fetched dest m retry_attempts (some bs) =
    (ok (length bs), record { files = insert dest bs (insert dest [] m); faults = [] })

attempts-fetched :
    (answer : ℕ → Option (List ℕ)) (dest : FilePath) (m : Files) (n left : ℕ)
    → attempts answer dest n left (record { files = m; faults = [] })
      ≡ fetched dest m left (first_answer answer n left)
unfolding attempts get_file attempt
attempts-fetched answer dest m n zero = refl
attempts-fetched answer dest m n (suc left) =
    let d : Disk = record { files = m; faults = [] } in
    let next : Result SyncError ℕ × Disk → Result SyncError ℕ × Disk = λ x. elim x.0 [
      | ok bytes ↦ (ok bytes, x.1)
      | err e ↦ if eqb left 0 then (err e, x.1) else attempts answer dest (suc n) left x.1
    ] in
    elim (Option-cases (answer n)) [
      | inr (bs, q) ↦
          let got : get_file (answer n) dest d ≡ fetched dest m 1 (some bs) = rw q refl in
          let first : first_answer answer n (suc left) ≡ some bs = rw (first_answer, q) refl in
          ap next got ∙ ap (fetched dest m (suc left)) (sym first)
      | inl q ↦
          let got : get_file (answer n) dest d ≡ (err fetch_failed, d) = rw q refl in
          let later : first_answer answer n (suc left) ≡ first_answer answer (suc n) left =
            rw (first_answer, q) refl in
          ap next got
          ∙ again left (attempts-fetched answer dest m (suc n) left)
          ∙ ap (fetched dest m (suc left)) (sym later)
    ]
  where
    again :
        (left : ℕ)
        → attempts answer dest (suc n) left (record { files = m; faults = [] })
          ≡ fetched dest m left (first_answer answer (suc n) left)
        → (if eqb left 0
            then (err fetch_failed, record { files = m; faults = [] })
            else attempts answer dest (suc n) left (record { files = m; faults = [] }))
          ≡ fetched dest m (suc left) (first_answer answer (suc n) left)
    again zero h = refl
    again (suc k) h = rw e (h ∙ same (first_answer answer (suc n) (suc k)))
      where
        e : eqb (suc k) 0 ≡ false
        e = ground arith

        same : (o : Option (List ℕ)) → fetched dest m (suc k) o ≡ fetched dest m (suc (suc k)) o
        same none = refl
        same (some bs) = refl

-- On a disk without faults a retried fetch succeeds exactly where one of its attempts is
-- answered: it writes the first answer; otherwise it leaves the disk as it was, and its error
-- tells a last failed attempt from no attempt at all.
pub get_with_retry-fetched :
    (answer : ℕ → Option (List ℕ)) (dest : FilePath) (retry_attempts : ℕ) (m : Files)
    → get_with_retry answer dest retry_attempts (record { files = m; faults = [] })
      ≡ fetched dest m retry_attempts (first_answer answer 0 retry_attempts)
unfolding get_with_retry
get_with_retry-fetched answer dest retry_attempts m =
    attempts-fetched answer dest m 0 retry_attempts
