-- ===== src/Writer/Uploader/Kept.antt =====
-- No file of a chunk is lost by the uploader of sillage-writer/src/uploader.rs.
use mathlib.Core.Bool.{◌&&◌, not}
use sillage.Prelude.{
  ℕ, ◌≡◌, refl, sym, subst, ap, ◌∙◌, ◌⊎◌, inl, inr, Option, none, some, some_inj, Bool, true, false,
  List, [], ◌∷◌, All, lookup, insert, remove, lookup-insert, lookup-remove, arith, Option-cases,
  Bool-cases, ◌==◌, if◌then◌else◌,
}
use sillage.Common.Disk.{
  Files, FilePath, Ext, zst, idx, meta_json, uploaded, path_eq, path_beq, path_beq_iff, ext_beq,
  is_file,
}
use sillage.Writer.Chunker.Sidecar.{is_file-insert, is_file-remove}
use sillage.Writer.Uploader.{is_marker}
pub mod Uploads
pub mod Sweeps
pub mod Losses

-- A file of a chunk under its final name.
abbrev pub is_data : FilePath → Bool
is_data q = not (ext_beq q.ext uploaded) && not q.partial

abbrev pub marker_of : FilePath → FilePath
marker_of q = record q { ext = uploaded }

-- What the disk has, the bucket has too.
abbrev pub Covered : FilePath → Files → Files → Type 0
Covered q disk bucket = (bs : List ℕ) → lookup q disk ≡ some bs → lookup q bucket ≡ some bs

-- The files of the chunks are those of `orig`, the marked ones are in the bucket, and every one
-- is on the disk or in the bucket.
pub record Kept (orig disk bucket : Files) : Type 0 where
  pub frozen :
      (q : FilePath) (bs : List ℕ)
      → is_data q ≡ true
      → lookup q disk ≡ some bs
      → lookup q orig ≡ some bs
  pub backed :
      (q : FilePath) → is_data q ≡ true → is_file (marker_of q) disk ≡ true → Covered q disk bucket
  pub safe :
      (q : FilePath) (bs : List ℕ)
      → is_data q ≡ true
      → lookup q orig ≡ some bs
      → (lookup q disk ≡ some bs) ⊎ (lookup q bucket ≡ some bs)

pub Covered-store :
    (p q : FilePath) (bs : List ℕ) (disk bucket : Files)
    → lookup p disk ≡ some bs
    → Covered q disk bucket
    → Covered q disk (insert p bs bucket)
Covered-store p q bs disk bucket h c b e =
    ground (arith, lookup-insert p q bs bucket, path_beq_iff p q, c b)

pub Covered-stored :
    (p : FilePath) (bs : List ℕ) (disk bucket : Files)
    → lookup p disk ≡ some bs
    → Covered p disk (insert p bs bucket)
Covered-stored p bs disk bucket h b e =
    ground (arith, lookup-insert p p bs bucket, path_beq_iff p p)

pub Covered-remove :
    (p q : FilePath) (disk bucket : Files)
    → Covered q disk bucket
    → Covered q (remove p disk) bucket
Covered-remove p q disk bucket c b e = ground (arith, lookup-remove p q disk, c b)

pub Covered-insert :
    (p q : FilePath) (bs : List ℕ) (disk bucket : Files)
    → is_data p ≡ false
    → is_data q ≡ true
    → Covered q disk bucket
    → Covered q (insert p bs disk) bucket
Covered-insert p q bs disk bucket n d c b e =
    ground (arith, lookup-insert p q bs disk, path_beq_iff p q, c b)

module _ (orig disk bucket : Files) (k : Kept orig disk bucket) where
  pub Kept-store :
      (p : FilePath) (bs : List ℕ)
      → lookup p disk ≡ some bs
      → is_data p ≡ true
      → Kept orig disk (insert p bs bucket)
  Kept-store p bs h d = record {
    frozen = k.frozen;
    backed = λ q dq m. Covered-store p q bs disk bucket h (k.backed q dq m);
    safe = λ q b dq o. elim (k.safe q b dq o) [
      | inl here ↦ inl here
      | inr there ↦ elim (Bool-cases (path_beq p q)) [
        | inl e ↦
            let same : p ≡ q = (path_beq_iff p q).0 e in
            let held : lookup q disk ≡ some bs = subst (λ u. lookup u disk ≡ some bs) same h in
            let bytes : bs ≡ b = some_inj (sym (k.frozen q bs dq held) ∙ o) in inl (rw⁻¹ bytes held)
        | inr e ↦ inr (lookup-insert p q bs bucket ∙ rw e there)
      ]
    ];
  }

  pub Kept-remove :
      (p : FilePath) → (is_data p ≡ true → Covered p disk bucket) → Kept orig (remove p disk) bucket
  Kept-remove p c = record {
    frozen = λ q b dq h. ground (arith, lookup-remove p q disk, k.frozen q b dq);
    backed = λ q dq m.
        let before : is_file (marker_of q) disk ≡ true =
          ground (arith, is_file-remove p (marker_of q) disk) in
        Covered-remove p q disk bucket (k.backed q dq before);
    safe = λ q b dq o. elim (k.safe q b dq o) [
      | inl here ↦ elim (Bool-cases (path_beq p q)) [
        | inl e ↦
            let same : p ≡ q = (path_beq_iff p q).0 e in
            inr (subst (λ u. is_data u ≡ true → Covered u disk bucket) same c dq b here)
        | inr e ↦ inl (lookup-remove p q disk ∙ rw e here)
      ]
      | inr there ↦ inr there
    ];
  }

  -- A file that is no chunk's is written; a marker wants its chunk in the bucket.
  pub Kept-insert :
      (p : FilePath) (bs : List ℕ)
      → is_data p ≡ false
      → ((q : FilePath)
          → is_data q ≡ true
          → path_beq p (marker_of q) ≡ true
          → Covered q disk bucket)
      → Kept orig (insert p bs disk) bucket
  Kept-insert p bs n c =
      let other : (q : FilePath) → is_data q ≡ true → path_beq p q ≡ false =
        λ q dq. ground (arith, path_beq_iff p q) in
      let same : (q : FilePath) → is_data q ≡ true → lookup q (insert p bs disk) ≡ lookup q disk =
        λ q dq. lookup-insert p q bs disk ∙ rw (other q dq) refl in
      record {
        frozen = λ q b dq e. k.frozen q b dq (sym (same q dq) ∙ e);
        backed = λ q dq m.
            Covered-insert p q bs disk bucket n dq (elim (Bool-cases (path_beq p (marker_of q))) [
              | inl e ↦ c q dq e
              | inr e ↦
                  let before : is_file (marker_of q) disk ≡ true =
                    ground (arith, is_file-insert p (marker_of q) bs disk) in
                  k.backed q dq before
            ]);
        safe = λ q b dq o. elim (k.safe q b dq o) [
          | inl here ↦ inl (same q dq ∙ here)
          | inr there ↦ inr there
        ];
      }
