-- ===== src/Prelude/Entries.antt =====
-- Properties of every entry of a map.
use mathlib.Core.Path.{◌≡◌, refl, sym, subst, ◌∙◌}
use mathlib.Core.Logic.{inl, inr}
use mathlib.Core.Option.{some}
use mathlib.Core.List.{List, [], ◌∷◌}
use native.Mathlib.Omega.{arith}
use sillage.Prelude.Tests.{Eq, ◌==◌, Bool-cases, some_inj}
use sillage.Prelude.Lists.{All}
use sillage.Prelude.Maps.{lookup, remove}
use sillage.Prelude.Order.{Ord, insert_sorted}

module _ {ℓ κ μ} {K : Type ℓ} {V : Type κ} ⦃e : Eq K⦄ (P : K × V → Type μ) where
  pub All-lookup : (k : K) (v : V) (m : List (K × V)) → All P m → lookup k m ≡ some v → P (k, v)
  unfolding lookup
  All-lookup k v [] h found = ground arith
  All-lookup k v ((j, w) ∷ m) h found = elim (Bool-cases (j == k)) [
    | inl q ↦
        let here : lookup k ((j, w) ∷ m) ≡ some w = rw (lookup, q) refl in
        subst (λ i. P (i, v)) ((e.beq_iff j k).0 q)
          (subst (λ u. P (j, u)) (some_inj (sym here ∙ found)) h.0)
    | inr q ↦
        let there : lookup k ((j, w) ∷ m) ≡ lookup k m = rw (lookup, q) refl in
        All-lookup k v m h.1 (sym there ∙ found)
  ]

  pub All-remove : (k : K) (m : List (K × V)) → All P m → All P (remove k m)
  unfolding remove
  All-remove k [] h = h
  All-remove k ((j, w) ∷ m) h = elim (Bool-cases (j == k)) [
    | inl q ↦ rw (remove, q) (All-remove k m h.1)
    | inr q ↦ rw (remove, q) (h.0, All-remove k m h.1)
  ]

  pub All-insert_sorted :
      ⦃o : Ord K⦄ (k : K) (v : V) (m : List (K × V))
      → All P m
      → P (k, v)
      → All P (insert_sorted k v m)
  unfolding insert_sorted
  All-insert_sorted k v [] h p = (p, h)
  All-insert_sorted ⦃o⦄ k v ((j, w) ∷ m) h p = elim (Bool-cases (j == k)) [
    | inl q ↦ rw (insert_sorted, q) (p, h.1)
    | inr q ↦ elim (Bool-cases (o.lt k j)) [
      | inl r ↦ rw (insert_sorted, q, r) (p, h)
      | inr r ↦ rw (insert_sorted, q, r) (h.0, All-insert_sorted k v m h.1 p)
    ]
  ]
