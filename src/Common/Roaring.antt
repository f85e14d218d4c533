-- ===== src/Common/Roaring.antt =====
-- The interface of the package `roaring`: compressed sets of `u32`. The implementation is not part
-- of the repository; what the crates rely on are the laws of a finite set that is walked in
-- ascending order, and that the portable serialization is read back.
use sillage.Prelude.{
  ℕ, ◌<◌, ◌≡◌, Bool, true, false, not, ◌&&◌, ◌||◌, Option, some, List, [], ◌∷◌, All, anyb, ltb, eqb,
}

-- Each element is below all that follow it.
abbrev pub IsAscending : List ℕ → Type 0
IsAscending [] = Unit {0}
IsAscending (x ∷ xs) = All (λ y. x < y) xs × IsAscending xs

pub record Roaring : Type 1 where
  pub Bitmap : Type 0
  pub empty : Bitmap
  pub insert_bit : ℕ → Bitmap → Bitmap
  pub contains : Bitmap → ℕ → Bool
  -- `|`, `&` and `-`.
  pub union : Bitmap → Bitmap → Bitmap
  pub inter : Bitmap → Bitmap → Bitmap
  pub diff : Bitmap → Bitmap → Bitmap
  -- `from_sorted_iter(0..n)`.
  pub below : ℕ → Bitmap
  pub is_empty : Bitmap → Bool
  -- `into_iter`.
  pub iter : Bitmap → List ℕ
  pub serialize : Bitmap → List ℕ
  pub deserialize : List ℕ → Option Bitmap
  pub contains-empty : (n : ℕ) → contains empty n ≡ false
  pub contains-insert :
      (m : ℕ) (b : Bitmap) (n : ℕ) → contains (insert_bit m b) n ≡ (eqb m n || contains b n)
  pub contains-union :
      (a b : Bitmap) (n : ℕ) → contains (union a b) n ≡ (contains a n || contains b n)
  pub contains-inter :
      (a b : Bitmap) (n : ℕ) → contains (inter a b) n ≡ (contains a n && contains b n)
  pub contains-diff :
      (a b : Bitmap) (n : ℕ) → contains (diff a b) n ≡ (contains a n && not (contains b n))
  pub contains-below : (k n : ℕ) → contains (below k) n ≡ ltb n k
  pub contains-iter : (b : Bitmap) (n : ℕ) → contains b n ≡ anyb (λ m. eqb m n) (iter b)
  pub iter-IsAscending : (b : Bitmap) → IsAscending (iter b)
  pub is_empty-iter : (b : Bitmap) → is_empty b ≡ true → iter b ≡ []
  pub deserialize-serialize : (b : Bitmap) → deserialize (serialize b) ≡ some b
