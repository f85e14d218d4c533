-- ===== src/Common/Disk/Runs.antt =====
-- Rules for runs that may stop at any operation.
use sillage.Prelude.{
  ℕ, ◌≡◌, some, List, Result, ok, err, lookup, insert, remove, Option-cases, Bool-cases, inl, inr,
}
use sillage.Common.Disk.{
  Files, FilePath, IoError, M, and_then, ◌>>=◌, attempt, rename, next_fault, move, path_eq,
}

-- From a state in `P`, a run ends in `Q` with its result, or fails in a state in `T`.
abbrev pub Post : {S E A : Type 0} → (S → Type 0) → (A → S → Type 0) → Result E A × S → Type 0
Post T Q (ok a, s) = Q a s
Post T Q (err e, s) = T s

abbrev pub Runs :
    {S E A : Type 0} → (S → Type 0) → (S → Type 0) → M S E A → (A → S → Type 0) → Type 0
Runs {S} T P m Q = (s : S) → P s → Post T Q (m s)

module _ {S E A B : Type 0} (T : S → Type 0) (Q : A → S → Type 0) (U : B → S → Type 0) where
  pub Post-and_then :
      (x : Result E A × S) (f : A → M S E B)
      → Post T Q x
      → ((a : A) (s : S) → Q a s → Post T U (f a s))
      → Post T U (and_then x.0 f x.1)
  Post-and_then (ok a, s) f q k = k a s q
  Post-and_then (err e, s) f q k = q

  pub Runs-bind :
      (P : S → Type 0) (m : M S E A) (f : A → M S E B)
      → Runs T P m Q
      → ((a : A) → Runs T (Q a) (f a) U)
      → Runs T P (m >>= f) U
  Runs-bind P m f h k s p = Post-and_then (m s) f (h s p) k

-- Predicates of the files alone.
module _ {E : Type 0} (wrap : IoError → E) (T P Q : Files → Type 0)
    (weak : (m : Files) → P m → T m) where
  pub attempt-Runs :
      (f : Files → Files)
      → ((m : Files) → P m → Q (f m))
      → Runs (λ d. T d.files) (λ d. P d.files) (attempt wrap f) (λ _ d. Q d.files)
  unfolding attempt
  attempt-Runs f step d p = elim (Bool-cases (next_fault d.faults)) [
    | inl e ↦ rw (e, attempt) (weak d.files p)
    | inr e ↦ rw (e, attempt) (step d.files p)
  ]

  pub rename-Runs :
      (p q : FilePath)
      → ((m : Files) (bs : List ℕ) → P m → lookup p m ≡ some bs → Q (insert q bs (remove p m)))
      → Runs (λ d. T d.files) (λ d. P d.files) (rename wrap p q) (λ _ d. Q d.files)
  unfolding rename move attempt
  rename-Runs p q step d h = elim (Option-cases (lookup p d.files)) [
    | inl e ↦ rw (e, rename) (weak d.files h)
    | inr (bs, e) ↦ elim (Bool-cases (next_fault d.faults)) [
      | inl e' ↦ rw (e, rename, e') (weak d.files h)
      | inr e' ↦ rw (e, rename, e') (step d.files bs h e)
    ]
  ]

Post-weaken :
    {S E A : Type 0} (T : S → Type 0) (Q Q' : A → S → Type 0) (x : Result E A × S)
    → ((a : A) (s : S) → Q' a s → Q a s)
    → Post T Q' x
    → Post T Q x
Post-weaken T Q Q' (ok a, s) k q = k a s q
Post-weaken T Q Q' (err e, s) k q = q

pub Runs-weaken :
    {S E A : Type 0} (T P : S → Type 0) (Q Q' : A → S → Type 0) (m : M S E A)
    → ((s : S) → T s → P s)
    → ((a : A) (s : S) → Q' a s → Q a s)
    → Runs T P m Q'
    → Runs T T m Q
Runs-weaken T P Q Q' m k l h s t = Post-weaken T Q Q' (m s) l (h s (k s t))
