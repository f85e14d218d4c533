-- ===== src/Common/Disk.antt =====
-- The files that the crates keep under `chunks/<stream>/`, and operations on them that can fail.
--
-- A path is the triple that its name is formatted from, `{start:012}-{end:012}.<ext>`, with a mark
-- for the suffix `.partial`. Every operation consumes one entry of `faults`: `true` makes it fail
-- with nothing done. So a run under all fault lists passes through every state in which a crash
-- can leave the disk, between any two operations.
use mathlib.Core.Bool.{◌&&◌}
use sillage.Prelude.{
  ℕ, ◌≡◌, ◌↔◌, Option, none, some, Bool, true, false, List, [], ◌∷◌, eqb, eqb_iff, if◌then◌else◌,
  Eq, Result, ok, err, lookup, insert, remove, arith,
}
use sillage.Common.Stream.{Stream, stream_beq, stream_beq_iff}
pub mod Runs

pub data Ext : Type 0 where
  zst idx meta_json uploaded : Ext

pub record FilePath : Type 0 where
  pub stream : Stream
  pub start_slot : ℕ
  pub end_slot : ℕ
  pub ext : Ext
  pub partial : Bool

abbrev pub ext_beq : Ext → Ext → Bool
ext_beq zst zst = true
ext_beq idx idx = true
ext_beq meta_json meta_json = true
ext_beq uploaded uploaded = true
ext_beq _ _ = false

abbrev pub bool_beq : Bool → Bool → Bool
bool_beq true b = b
bool_beq false true = false
bool_beq false false = true

abbrev pub path_beq : FilePath → FilePath → Bool
path_beq p q =
    stream_beq p.stream q.stream
    && (eqb p.start_slot q.start_slot
        && (eqb p.end_slot q.end_slot && (ext_beq p.ext q.ext && bool_beq p.partial q.partial)))

ext_beq_iff : (a b : Ext) → (ext_beq a b ≡ true) ↔ (a ≡ b)
ext_beq_iff a b = ground arith

pub path_beq_iff : (p q : FilePath) → (path_beq p q ≡ true) ↔ (p ≡ q)
path_beq_iff p q = ground (arith, stream_beq_iff p.stream q.stream, ext_beq_iff p.ext q.ext)

instance abbrev pub path_eq : Eq FilePath
path_eq = record { beq = path_beq; beq_iff = path_beq_iff }

abbrev pub Files : Type 0
Files = List (FilePath × List ℕ)

pub record Disk : Type 0 where
  pub files : Files
  pub faults : List Bool

pub data IoError : Type 0 where
  failed not_found : IoError

-- A computation on a state that may fail; the state outlives the failure.
abbrev pub M : Type 0 → Type 0 → Type 0 → Type 0
M S E A = S → Result E A × S

module _ {S E A B : Type 0} where
  abbrev pub and_then : Result E A → (A → M S E B) → M S E B
  and_then (ok a) f = f a
  and_then (err e) f = λ s. (err e, s)

  infixl 5 ◌>>=◌
  abbrev pub ◌>>=◌ : M S E A → (A → M S E B) → M S E B
  m >>= f = λ s. let (r, s') = m s in and_then r f s'

infixl 5 ◌>>◌
abbrev pub ◌>>◌ : {S E B : Type 0} → M S E (Unit {0}) → M S E B → M S E B
m >> k = m >>= λ _. k

abbrev pub pure : {S E A : Type 0} → A → M S E A
pure a s = (ok a, s)

abbrev pub throw : {S E A : Type 0} → E → M S E A
throw e s = (err e, s)

-- `?` on a result, with its error wrapped.
abbrev pub lift : {S E F A : Type 0} → (F → E) → Result F A → M S E A
lift wrap (ok a) = pure a
lift wrap (err e) = throw (wrap e)

abbrev pub expect : {S E A : Type 0} → Option A → E → M S E A
expect none e = throw e
expect (some a) e = pure a

-- The next fault, and the faults after it.
abbrev pub next_fault : List Bool → Bool
next_fault [] = false
next_fault (b ∷ bs) = b

abbrev pub later_faults : List Bool → List Bool
later_faults [] = []
later_faults (b ∷ bs) = bs

module _ {E : Type 0} (wrap : IoError → E) where
  -- One operation: it takes place, or it fails with nothing done.
  unfoldable pub attempt : (Files → Files) → M Disk E (Unit {0})
  attempt f d =
      if next_fault d.faults
      then (err (wrap failed), record d { faults = later_faults d.faults })
      else (ok tt, record { files = f d.files; faults = later_faults d.faults })

  -- `File::create`: an empty file, also where there was one.
  abbrev pub create : FilePath → M Disk E (Unit {0})
  create p = attempt (insert p [])

  -- `write_all` on a file just created.
  abbrev pub write_bytes : FilePath → List ℕ → M Disk E (Unit {0})
  write_bytes p bs = attempt (insert p bs)

  -- `sync_all`.
  abbrev pub sync : M Disk E (Unit {0})
  sync = attempt (λ m. m)

  move : FilePath → FilePath → Option (List ℕ) → M Disk E (Unit {0})
  move p q none = throw (wrap not_found)
  move p q (some bs) = attempt (λ m. insert q bs (remove p m))

  -- `fs::rename`: the target is replaced in one step.
  unfoldable pub rename : FilePath → FilePath → M Disk E (Unit {0})
  unfolding move
  rename p q d = move p q (lookup p d.files) d

  -- `fs::remove_file`.
  unfoldable pub remove_file : FilePath → M Disk E (Unit {0})
  unfolding move
  remove_file p d = elim (lookup p d.files) [
    | none ↦ (err (wrap not_found), d)
    | some bs ↦ attempt (remove p) d
  ]

abbrev pub is_file : FilePath → Files → Bool
is_file p m = elim (lookup p m) [ none ↦ false | some bs ↦ true ]
