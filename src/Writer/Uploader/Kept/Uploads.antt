-- ===== src/Writer/Uploader/Kept/Uploads.antt =====
-- An upload of sillage-writer/src/uploader.rs: the marker comes after the three files.
use sillage.Prelude.{
  ℕ, zero, suc, ◌≡◌, refl, subst, inl, inr, some, true, false, List, [], ◌∷◌, All, eqb,
  if◌then◌else◌, Result, ok, err, lookup, insert, remove, arith, Option-cases, Bool-cases,
}
use sillage.Common.Disk.{
  Files, FilePath, Disk, ◌>>◌, create, sync, Ext, zst, idx, meta_json, uploaded, path_eq, path_beq,
  path_beq_iff,
}
use sillage.Common.Disk.Runs.{Post, Runs, Runs-bind, attempt-Runs, rename-Runs}
use sillage.Writer.Uploader.{
  PutResult, acknowledged, unacknowledged, refused, UploadError, io, Site, PendingChunk, path_of,
  partial_marker, mark, put_file, puts, put_with_retry, on_disk, upload_chunk,
}
use sillage.Writer.Uploader.Kept.{
  is_data, marker_of, Covered, Kept, Covered-store, Covered-stored, Covered-remove, Covered-insert,
  Kept-store, Kept-remove, Kept-insert,
}

module _ (orig : Files) where
  -- How far an upload has come: these files are in the bucket.
  abbrev pub Stored : List FilePath → Files → Files → Type 0
  Stored ps disk bucket =
      Kept orig disk bucket × All (λ p. (is_data p ≡ true) × Covered p disk bucket) ps

  abbrev At : List FilePath → Site → Type 0
  At ps s = Stored ps s.disk.files s.bucket

  store-All :
      (p : FilePath) (bs : List ℕ) (ps : List FilePath) (disk bucket : Files)
      → lookup p disk ≡ some bs
      → All (λ q. (is_data q ≡ true) × Covered q disk bucket) ps
      → All (λ q. (is_data q ≡ true) × Covered q disk (insert p bs bucket)) ps
  store-All p bs [] disk bucket h c = tt
  store-All p bs (q ∷ ps) disk bucket h c =
      ((c.0.0, Covered-store p q bs disk bucket h c.0.1), store-All p bs ps disk bucket h c.1)

  module _ (ps : List FilePath) (p : FilePath) (d : is_data p ≡ true) where
    abbrev Put : Result UploadError (Unit {0}) × Site → Type 0
    Put x = Post (At ps) (λ _. At (p ∷ ps)) x

    put_file-Put : (answer : PutResult) (s : Site) → At ps s → Put (put_file answer p s)
    unfolding put_file
    put_file-Put answer s h = elim (Option-cases (lookup p s.disk.files)) [
      | inl n ↦ rw (put_file, n) h
      | inr (bs, n) ↦
          let kept : Kept orig s.disk.files (insert p bs s.bucket) =
            Kept-store orig s.disk.files s.bucket h.0 p bs n d in
          let rest = store-All p bs ps s.disk.files s.bucket n h.1 in go answer bs n kept rest
    ]
      where
        go :
            (a : PutResult) (bs : List ℕ)
            → lookup p s.disk.files ≡ some bs
            → Kept orig s.disk.files (insert p bs s.bucket)
            → All (λ q. (is_data q ≡ true) × Covered q s.disk.files (insert p bs s.bucket)) ps
            → Post (At ps) (λ _. At (p ∷ ps)) (put_file a p s)
        go acknowledged bs n kept rest =
            rw (put_file, n) (kept, ((d, Covered-stored p bs s.disk.files s.bucket n), rest))
        go unacknowledged bs n kept rest = rw (put_file, n) (kept, rest)
        go refused bs n kept rest = rw (put_file, n) h

    retried :
        (net : ℕ → PutResult) (n left : ℕ) (x : Result UploadError (Unit {0}) × Site)
        → Put x
        → ((s : Site) → At ps s → Put (puts net p (suc n) left s))
        → Put (elim x.0 [
          | ok u ↦ (ok u, x.1)
          | err e ↦ if eqb left 0 then (err e, x.1) else puts net p (suc n) left x.1
        ])
    retried net n left (ok u, s) h k = h
    retried net n left (err e, s) h k = elim (Bool-cases (eqb left 0)) [
      | inl z ↦ rw z h
      | inr z ↦ rw z (k s h)
    ]

    puts-Put : (net : ℕ → PutResult) (n left : ℕ) (s : Site) → At ps s → Put (puts net p n left s)
    unfolding puts
    puts-Put net n zero s h = h
    puts-Put net n (suc left) s h =
        retried net n left (put_file (net n) p s) (put_file-Put (net n) s h)
          (puts-Put net (suc n) left)

    -- A failed put leaves the rest as it was.
    put_with_retry-Runs :
        (net : ℕ → PutResult) (n : ℕ)
        → Runs (At []) (At ps) (put_with_retry net n p) (λ _. At (p ∷ ps))
    unfolding put_with_retry
    put_with_retry-Runs net n s h = weaker (puts net p 0 n s) (puts-Put net 0 n s h)
      where
        weaker :
            (x : Result UploadError (Unit {0}) × Site) → Put x → Post (At []) (λ _. At (p ∷ ps)) x
        weaker (ok u, s) h = h
        weaker (err e, s) h = (h.0, tt)

  -- A partial file is nobody's.
  Stored-insert :
      (ps : List FilePath) (p : FilePath) (bs : List ℕ) (disk bucket : Files)
      → p.partial ≡ true
      → Stored ps disk bucket
      → Stored ps (insert p bs disk) bucket
  Stored-insert ps p bs disk bucket h st =
      let n : is_data p ≡ false = ground arith in
      (
        Kept-insert orig disk bucket st.0 p bs n
            (λ q dq e. ground (arith, path_beq_iff p (marker_of q))),
        go n ps st.1,
      )
    where
      go :
          is_data p ≡ false
          → (ps : List FilePath) → All (λ p. (is_data p ≡ true) × Covered p disk bucket) ps
          → All (λ q. (is_data q ≡ true) × Covered q (insert p bs disk) bucket) ps
      go n [] c = tt
      go n (q ∷ qs) c = ((c.0.0, Covered-insert p q bs disk bucket n c.0.0 c.0.1), go n qs c.1)

  Stored-remove :
      (ps : List FilePath) (p : FilePath) (disk bucket : Files)
      → p.partial ≡ true
      → Stored ps disk bucket
      → Stored ps (remove p disk) bucket
  Stored-remove ps p disk bucket h st =
      (Kept-remove orig disk bucket st.0 p (λ d. ground arith), go ps st.1)
    where
      go :
          (ps : List FilePath)
          → All (λ p. (is_data p ≡ true) × Covered p disk bucket) ps
          → All (λ q. (is_data q ≡ true) × Covered q (remove p disk) bucket) ps
      go [] c = tt
      go (q ∷ qs) c = ((c.0.0, Covered-remove p q disk bucket c.0.1), go qs c.1)

  module _ (c : PendingChunk) where
    abbrev files_of : List FilePath
    files_of = path_of c meta_json ∷ path_of c idx ∷ path_of c zst ∷ []

    -- With its files in the bucket, a chunk may be marked.
    Stored-mark :
        (bs : List ℕ) (disk bucket : Files)
        → Stored files_of disk bucket
        → Kept orig (insert (path_of c uploaded) bs disk) bucket
    Stored-mark bs disk bucket st =
        Kept-insert orig disk bucket st.0 (path_of c uploaded) bs refl
          (λ q dq e. go q q.ext refl dq e)
      where
        at :
            (q : FilePath) (x : Ext)
            → q.ext ≡ x
            → is_data q ≡ true
            → path_beq (path_of c uploaded) (marker_of q) ≡ true
            → path_of c x ≡ q
        at q x h dq e = (path_beq_iff (path_of c x) q).0 (ground arith)

        go :
            (q : FilePath) (x : Ext)
            → q.ext ≡ x
            → is_data q ≡ true
            → path_beq (path_of c uploaded) (marker_of q) ≡ true
            → Covered q disk bucket
        go q meta_json h dq e = subst (λ u. Covered u disk bucket) (at q meta_json h dq e) st.1.0.1
        go q idx h dq e = subst (λ u. Covered u disk bucket) (at q idx h dq e) st.1.1.0.1
        go q zst h dq e = subst (λ u. Covered u disk bucket) (at q zst h dq e) st.1.1.1.0.1
        go q uploaded h dq e = ground arith

    mark-Runs :
        (bucket : Files)
        → Runs
            (λ d. Kept orig d.files bucket)
            (λ d. Stored files_of d.files bucket)
            (mark c)
            (λ _ d. Kept orig d.files bucket)
    mark-Runs bucket =
        let T : Files → Type 0 = λ m. Kept orig m bucket in
        let P : Files → Type 0 = λ m. Stored files_of m bucket in
        let weak : (m : Files) → P m → T m = λ m h. h.0 in
        Runs-bind (λ d. T d.files) (λ _ d. P d.files) (λ _ d. T d.files) (λ d. P d.files)
          (create io (partial_marker c) >> sync io) _
          (Runs-bind (λ d. T d.files) (λ _ d. P d.files) (λ _ d. P d.files) (λ d. P d.files)
            (create io (partial_marker c)) _
            (attempt-Runs io T P P weak (insert (partial_marker c) [])
              (λ m h. Stored-insert files_of (partial_marker c) [] m bucket refl h))
            (λ _. attempt-Runs io T P P weak (λ m. m) (λ m h. h)))
          (λ _. rename-Runs io T P T weak (partial_marker c) (path_of c uploaded) (λ m bs h found.
            Stored-mark bs (remove (partial_marker c) m) bucket
              (Stored-remove files_of (partial_marker c) m bucket refl h)))

    lift-Kept :
        {A : Type 0} (s : Site) (x : Result UploadError A × Disk)
        → Post (λ d. Kept orig d.files s.bucket) (λ _ d. Kept orig d.files s.bucket) x
        → Post (At []) (λ _. At []) (x.0, record s { disk = x.1 })
    lift-Kept s (ok a, d) h = (h, tt)
    lift-Kept s (err e, d) h = (h, tt)

    Kept-after :
        (x : Result UploadError (Unit {0}) × Site)
        → Post (At []) (λ _. At []) x
        → Kept orig x.1.disk.files x.1.bucket
    Kept-after (ok u, s) h = h.0
    Kept-after (err e, s) h = h.0

    -- However often the network and the disk fail, an upload loses no file: the marker stands
    -- only beside files that the bucket has.
    pub upload_chunk-Kept :
        (net : Ext → ℕ → PutResult) (retry_attempts : ℕ) (s : Site)
        → Kept orig s.disk.files s.bucket
        → Kept orig
            (upload_chunk net retry_attempts c s).1.disk.files
            (upload_chunk net retry_attempts c s).1.bucket
    unfolding upload_chunk on_disk
    upload_chunk-Kept net retry_attempts s k =
        let put : (ps : List FilePath) (e : Ext)
            → is_data (path_of c e) ≡ true
            → Runs (At []) (At ps) (put_with_retry (net e) retry_attempts (path_of c e))
                (λ _. At (path_of c e ∷ ps)) =
          λ ps e d. put_with_retry-Runs ps (path_of c e) d (net e) retry_attempts in
        Kept-after (upload_chunk net retry_attempts c s) (
          Runs-bind (At []) (λ _. At files_of) (λ _. At []) (At []) _ _
            (Runs-bind (At []) (λ _. At (path_of c idx ∷ path_of c zst ∷ [])) (λ _. At files_of)
              (At []) _ _
              (Runs-bind (At []) (λ _. At (path_of c zst ∷ []))
                (λ _. At (path_of c idx ∷ path_of c zst ∷ [])) (At []) _ _ (put [] zst refl)
                (λ _. put (path_of c zst ∷ []) idx refl))
              (λ _. put (path_of c idx ∷ path_of c zst ∷ []) meta_json refl))
            (λ _ s h. lift-Kept s (mark c s.disk) (mark-Runs s.bucket s.disk h)) s (k, tt))
