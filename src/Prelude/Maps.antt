-- ===== src/Prelude/Maps.antt =====
-- `HashMap` and `BTreeMap` as association lists: an insertion replaces. The order of
-- a `HashMap` is not observed; the sorted insertion of a `BTreeMap` is in `Order`.
use Prim.Native.Nat.{◌≤◌}
use mathlib.Core.Path.{◌≡◌, refl}
use mathlib.Core.Option.{Option, none, some}
use mathlib.Core.Bool.{Bool, true, false}
use mathlib.Core.List.{List, [], ◌∷◌}
use native.Mathlib.Omega.{arith}
use sillage.Prelude.Tests.{Eq, ◌==◌, if◌then◌else◌}
use sillage.Prelude.Lists.{length}

module _ {ℓ κ} {K : Type ℓ} {V : Type κ} ⦃e : Eq K⦄ where
  unfoldable pub insert : K → V → List (K × V) → List (K × V)
  insert key new [] = (key, new) ∷ []
  insert key new ((j, old) ∷ rest) =
      if j == key then (key, new) ∷ rest else (j, old) ∷ insert key new rest

  unfoldable pub contains_key : K → List (K × V) → Bool
  contains_key key [] = false
  contains_key key ((j, old) ∷ rest) = if j == key then true else contains_key key rest

  unfoldable pub remove : K → List (K × V) → List (K × V)
  remove key [] = []
  remove key ((j, old) ∷ m) = let rest = remove key m in if j == key then rest else (j, old) ∷ rest

  unfoldable pub lookup : K → List (K × V) → Option V
  lookup key [] = none
  lookup key ((j, old) ∷ rest) = if j == key then some old else lookup key rest

  pub lookup-remove :
      (key j : K) (m : List (K × V))
      → lookup j (remove key m) ≡ (if key == j then none else lookup j m)
  unfolding remove lookup
  lookup-remove key j [] = ground arith
  lookup-remove key j ((i, old) ∷ m) =
      ground (arith, e.beq_iff key j, e.beq_iff i key, e.beq_iff i j, lookup-remove key j m)

  pub lookup-insert :
      (key j : K) (new : V) (m : List (K × V))
      → lookup j (insert key new m) ≡ (if key == j then some new else lookup j m)
  unfolding insert lookup
  lookup-insert key j new [] = refl
  lookup-insert key j new ((i, old) ∷ m) =
      ground (arith, lookup-insert key j new m, e.beq_iff key j, e.beq_iff i key, e.beq_iff i j)

  pub length-remove-le : (k : K) (m : List (K × V)) → length (remove k m) ≤ length m
  unfolding remove
  length-remove-le k [] = omega arith
  length-remove-le k ((i, w) ∷ m) = ground (arith, length-remove-le k m)
