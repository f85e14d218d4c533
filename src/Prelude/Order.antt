-- ===== src/Prelude/Order.antt =====
-- `PartialOrd` and `Ord` of the source as an interface, and the sorted map of a `BTreeMap`.
use mathlib.Core.Path.{◌≡◌, refl}
use mathlib.Core.Option.{none, some}
use mathlib.Core.Bool.{Bool, true, false}
use mathlib.Core.List.{List, [], ◌∷◌}
use Prim.Native.Nat.{ℕ}
use native.Mathlib.Omega.{arith}
use sillage.Prelude.Tests.{Eq, ◌==◌, if◌then◌else◌, ltb, eqb, nat_eq, list_eq, list_beq}
use sillage.Prelude.Maps.{lookup, remove}

-- A strict total order that agrees with `==`.
pub record Ord {ℓ} (A : Type ℓ) ⦃e : Eq A⦄ : Type ℓ where
  pub lt : A → A → Bool
  pub lt_ne : (a b : A) → lt a b ≡ true → e.beq a b ≡ false
  pub lt_trans : (a b c : A) → lt a b ≡ true → lt b c ≡ true → lt a c ≡ true
  pub lt_total : (a b : A) → e.beq a b ≡ false → lt a b ≡ false → lt b a ≡ true

pub ltb_ne : (a b : ℕ) → ltb a b ≡ true → eqb a b ≡ false
ltb_ne a b h = ground arith

pub ltb_trans : (a b c : ℕ) → ltb a b ≡ true → ltb b c ≡ true → ltb a c ≡ true
ltb_trans a b c h k = ground arith

pub ltb_total : (a b : ℕ) → eqb a b ≡ false → ltb a b ≡ false → ltb b a ≡ true
ltb_total a b h k = ground arith

instance abbrev pub nat_ord : Ord ℕ
nat_ord = record { lt = ltb; lt_ne = ltb_ne; lt_trans = ltb_trans; lt_total = ltb_total }

-- The lexicographic order of byte strings.
abbrev pub bytes_lt : List ℕ → List ℕ → Bool
bytes_lt [] [] = false
bytes_lt [] (y ∷ ys) = true
bytes_lt (x ∷ xs) [] = false
bytes_lt (x ∷ xs) (y ∷ ys) = if eqb x y then bytes_lt xs ys else ltb x y

pub bytes_lt_ne : (xs ys : List ℕ) → bytes_lt xs ys ≡ true → list_beq xs ys ≡ false
bytes_lt_ne [] [] h = cc
bytes_lt_ne [] (y ∷ ys) h = refl
bytes_lt_ne (x ∷ xs) [] h = cc
bytes_lt_ne (x ∷ xs) (y ∷ ys) h = ground (arith, bytes_lt_ne xs ys)

pub bytes_lt_trans :
    (xs ys zs : List ℕ) → bytes_lt xs ys ≡ true → bytes_lt ys zs ≡ true → bytes_lt xs zs ≡ true
bytes_lt_trans [] [] zs h k = cc
bytes_lt_trans [] (y ∷ ys) [] h k = cc
bytes_lt_trans [] (y ∷ ys) (z ∷ zs) h k = refl
bytes_lt_trans (x ∷ xs) [] zs h k = cc
bytes_lt_trans (x ∷ xs) (y ∷ ys) [] h k = cc
bytes_lt_trans (x ∷ xs) (y ∷ ys) (z ∷ zs) h k = ground (arith, bytes_lt_trans xs ys zs)

pub bytes_lt_total :
    (xs ys : List ℕ) → list_beq xs ys ≡ false → bytes_lt xs ys ≡ false → bytes_lt ys xs ≡ true
bytes_lt_total [] [] h k = cc
bytes_lt_total [] (y ∷ ys) h k = cc
bytes_lt_total (x ∷ xs) [] h k = refl
bytes_lt_total (x ∷ xs) (y ∷ ys) h k = ground (arith, bytes_lt_total xs ys)

module _ {ℓ κ} {K : Type ℓ} {V : Type κ} ⦃e : Eq K⦄ ⦃o : Ord K⦄ where
  -- `BTreeMap::insert`: the keys stay in ascending order.
  unfoldable pub insert_sorted : K → V → List (K × V) → List (K × V)
  insert_sorted k v [] = (k, v) ∷ []
  insert_sorted k v ((j, w) ∷ m) =
      let rest = insert_sorted k v m in
      if j == k then (k, v) ∷ m else if o.lt k j then (k, v) ∷ (j, w) ∷ m else (j, w) ∷ rest

  pub lookup-insert_sorted :
      (k j : K) (v : V) (m : List (K × V))
      → lookup j (insert_sorted k v m) ≡ (if k == j then some v else lookup j m)
  unfolding lookup insert_sorted
  lookup-insert_sorted k j v [] = refl
  lookup-insert_sorted k j v ((i, w) ∷ m) =
      ground (arith, e.beq_iff k j, e.beq_iff i k, e.beq_iff i j, lookup-insert_sorted k j v m)

  -- Every key of the map is above `k`.
  abbrev pub Above : K → List (K × V) → Type 0
  Above k [] = Unit {0}
  Above k ((j, w) ∷ m) = (o.lt k j ≡ true) × Above k m

  abbrev pub Ascending : List (K × V) → Type 0
  Ascending [] = Unit {0}
  Ascending ((j, w) ∷ m) = Above j m × Ascending m

  pub Above-trans : (i j : K) (m : List (K × V)) → o.lt i j ≡ true → Above j m → Above i m
  Above-trans i j [] h a = tt
  Above-trans i j ((k, w) ∷ m) h a = (o.lt_trans i j k h a.0, Above-trans i j m h a.1)

  Above-insert_sorted :
      (i k : K) (v : V) (m : List (K × V))
      → o.lt i k ≡ true
      → Above i m
      → Above i (insert_sorted k v m)
  unfolding insert_sorted
  Above-insert_sorted i k v [] h a = (h, tt)
  Above-insert_sorted i k v ((j, w) ∷ m) h a = ground (arith, Above-insert_sorted i k v m h a.1)

  pub Ascending-insert_sorted :
      (k : K) (v : V) (m : List (K × V)) → Ascending m → Ascending (insert_sorted k v m)
  unfolding insert_sorted
  Ascending-insert_sorted k v [] a = (tt, tt)
  Ascending-insert_sorted k v ((j, w) ∷ m) a = ground (
    arith,
    e.beq_iff j k,
    Above-trans k j m,
    Above-insert_sorted j k v m,
    o.lt_total j k,
    o.lt_total k j,
    Ascending-insert_sorted k v m a.1,
  )

  pub lookup-Above : (k : K) (m : List (K × V)) → Above k m → lookup k m ≡ none
  unfolding lookup
  lookup-Above k [] a = refl
  lookup-Above k ((j, w) ∷ m) a =
      ground (arith, o.lt_ne k j a.0, e.beq_iff j k, e.beq_iff k j, lookup-Above k m a.1)

  Above-remove : (i k : K) (m : List (K × V)) → Above i m → Above i (remove k m)
  unfolding remove
  Above-remove i k [] a = tt
  Above-remove i k ((j, w) ∷ m) a = ground (arith, Above-remove i k m a.1)

  pub Ascending-remove : (k : K) (m : List (K × V)) → Ascending m → Ascending (remove k m)
  unfolding remove
  Ascending-remove k [] a = tt
  Ascending-remove k ((j, w) ∷ m) a =
      ground (arith, Above-remove j k m a.0, Ascending-remove k m a.1)
