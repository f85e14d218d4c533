-- ===== src/Writer/Recovery/Latest.antt =====
-- The greatest end of the sidecars that `latest_sealed_end_slot` goes through
-- (sillage-writer/src/recovery.rs).
use sillage.Prelude.{
  ℕ, ◌≡◌, refl, sym, subst, Option, none, some, Bool, true, false, not, ◌&&◌, ◌||◌, List, [], ◌∷◌,
  if◌then◌else◌, All, anyb, leb, eqb, arith, Bool-cases, ◌⊎◌, inl, inr,
}
use sillage.Common.Stream.{Stream}
use sillage.Common.Disk.{FilePath, path_eq, Files}
use sillage.Writer.Recovery.{is_sealed, max_end, latest_from}

-- A slot is not past what a stream resumes from.
abbrev pub covers : Option ℕ → ℕ → Bool
covers none n = false
covers (some e) n = leb n e

latest_from-keeps :
    (s : Stream) (l : Files) (acc : Option ℕ) (n : ℕ)
    → covers acc n ≡ true
    → covers (latest_from s l acc) n ≡ true
unfolding latest_from
latest_from-keeps s [] acc n h = h
latest_from-keeps s ((p, bs) ∷ l) acc n h =
    latest_from-keeps s l (if is_sealed s p then max_end acc p.end_slot else acc) n
      (ground (arith, h))

latest_from-covers :
    (s : Stream) (l : Files) (acc : Option ℕ)
    → All
        (λ (f : FilePath × List ℕ).
          (not (is_sealed s f.0) || covers (latest_from s l acc) f.0.end_slot) ≡ true)
        l
unfolding latest_from
latest_from-covers s [] acc = tt
latest_from-covers s ((p, bs) ∷ l) acc = (
  ground (
    arith,
    latest_from-keeps s l (if is_sealed s p then max_end acc p.end_slot else acc) p.end_slot,
  ),
  latest_from-covers s l (if is_sealed s p then max_end acc p.end_slot else acc),
)

abbrev ends_at : Option ℕ → ℕ → Bool
ends_at none e = false
ends_at (some m) e = eqb m e

abbrev has_end : Stream → ℕ → FilePath × List ℕ → Bool
has_end s e f = is_sealed s f.0 && eqb f.0.end_slot e

max_end-ends_at :
    (acc : Option ℕ) (n e : ℕ)
    → ends_at (max_end acc n) e ≡ true
    → (ends_at acc e || eqb n e) ≡ true
max_end-ends_at none n e h = h
max_end-ends_at (some m) n e h = ground (arith, h)

or_cases : (a b : Bool) → (a || b) ≡ true → (a ≡ true) ⊎ (b ≡ true)
or_cases true b h = inl refl
or_cases false b h = inr h

or_left : (a b : Bool) → a ≡ true → (a || b) ≡ true
or_left a b h = ground (arith, h)

or_right : (a b : Bool) → b ≡ true → (a || b) ≡ true
or_right a b h = ground (arith, h)

-- The result is the accumulator's or a sidecar's.
latest_from-attained :
    (s : Stream) (l : Files) (acc : Option ℕ) (e : ℕ)
    → ends_at (latest_from s l acc) e ≡ true
    → (ends_at acc e ≡ true) ⊎ (anyb (has_end s e) l ≡ true)
unfolding latest_from
latest_from-attained s [] acc e h = inl h
latest_from-attained s ((p, bs) ∷ l) acc e h = elim (Bool-cases (is_sealed s p)) [
  | inr q ↦
      let skipped : latest_from s ((p, bs) ∷ l) acc ≡ latest_from s l acc =
        rw (latest_from, q) refl in
      elim (latest_from-attained s l acc e (rw (sym skipped) h)) [
        | inl a ↦ inl a
        | inr a ↦ inr (or_right (has_end s e (p, bs)) (anyb (has_end s e) l) a)
      ]
  | inl q ↦
      let taken : latest_from s ((p, bs) ∷ l) acc ≡ latest_from s l (max_end acc p.end_slot) =
        rw (latest_from, q) refl in
      elim (latest_from-attained s l (max_end acc p.end_slot) e (rw (sym taken) h)) [
        | inr a ↦ inr (or_right (has_end s e (p, bs)) (anyb (has_end s e) l) a)
        | inl a ↦
            elim (or_cases (ends_at acc e) (eqb p.end_slot e)
              (max_end-ends_at acc p.end_slot e a)) [
                | inl c ↦ inl c
                | inr c ↦
                    inr (or_left (has_end s e (p, bs)) (anyb (has_end s e) l) (rw (q, c) refl))
              ]
      ]
]

some_file :
    (s : Stream) (l : Files) (e : ℕ)
    → (ends_at none e ≡ true) ⊎ (anyb (has_end s e) l ≡ true)
    → anyb (has_end s e) l ≡ true
some_file s l e (inl h) = ground (arith, h)
some_file s l e (inr h) = h

pub latest_from-covers_attained :
    (s : Stream) (files : Files) (e : ℕ)
    → latest_from s files none ≡ some e
    → All (λ (f : FilePath × List ℕ). (not (is_sealed s f.0) || leb f.0.end_slot e) ≡ true) files
      × (anyb (λ (f : FilePath × List ℕ). is_sealed s f.0 && eqb f.0.end_slot e) files ≡ true)
latest_from-covers_attained s files e h = (
  subst
      (λ r.
        All (λ (f : FilePath × List ℕ). (not (is_sealed s f.0) || covers r f.0.end_slot) ≡ true)
          files)
      h (latest_from-covers s files none),
  some_file s files e (latest_from-attained s files none e (rw h (ground arith))),
)
