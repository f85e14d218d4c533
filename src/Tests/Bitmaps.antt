-- ===== src/Tests/Bitmaps.antt =====
-- A set of numbers as a list, which has the laws of `Common/Roaring`.
use mathlib.Core.Bool.{◌&&◌, ◌||◌, not}
use sillage.Prelude.{
  ℕ, ◌<◌, ◌≡◌, refl, Bool, true, false, some, List, [], ◌∷◌, ◌++◌, eqb, ltb, if◌then◌else◌, anyb,
  filterb, All, arith, zero, suc,
}
use sillage.Common.Roaring.{Roaring, IsAscending}

abbrev pub has : List ℕ → ℕ → Bool
has b n = anyb (λ m. eqb m n) b

abbrev pub count_down : ℕ → List ℕ
count_down zero = []
count_down (suc n) = n ∷ count_down n

-- Into an ascending list, once.
abbrev pub put : ℕ → List ℕ → List ℕ
put n [] = n ∷ []
put n (m ∷ ms) =
    let rest = put n ms in if ltb n m then n ∷ m ∷ ms else if eqb n m then m ∷ ms else m ∷ rest

abbrev pub sorted : List ℕ → List ℕ
sorted [] = []
sorted (n ∷ ns) = put n (sorted ns)

abbrev pub is_nil : List ℕ → Bool
is_nil [] = true
is_nil (n ∷ ns) = false

pub has-append : (a b : List ℕ) (n : ℕ) → has (a ++ b) n ≡ (has a n || has b n)
has-append [] b n = refl
has-append (x ∷ a) b n = ground (arith, has-append a b n)

pub has-filterb : (p : ℕ → Bool) (b : List ℕ) (n : ℕ) → has (filterb p b) n ≡ (has b n && p n)
has-filterb p [] n = refl
has-filterb p (x ∷ b) n = ground (arith, has-filterb p b n)

pub has-count_down : (k n : ℕ) → has (count_down k) n ≡ ltb n k
has-count_down zero n = ground arith
has-count_down (suc k) n = ground (arith, has-count_down k n)

has-put : (m : ℕ) (b : List ℕ) (n : ℕ) → has (put m b) n ≡ (eqb m n || has b n)
has-put m [] n = refl
has-put m (x ∷ b) n = ground (arith, has-put m b n)

pub has-sorted : (b : List ℕ) (n : ℕ) → has b n ≡ has (sorted b) n
has-sorted [] n = refl
has-sorted (x ∷ b) n = ground (arith, has-put x (sorted b) n, has-sorted b n)

All-below-put : (k n : ℕ) (b : List ℕ) → k < n → All (λ y. k < y) b → All (λ y. k < y) (put n b)
All-below-put k n [] h a = (h, tt)
All-below-put k n (x ∷ b) h a = ground (arith, All-below-put k n b h a.1)

All-lower : (k m : ℕ) (b : List ℕ) → k < m → All (λ y. m < y) b → All (λ y. k < y) b
All-lower k m [] h a = tt
All-lower k m (x ∷ b) h a = (omega arith, All-lower k m b h a.1)

put-IsAscending : (n : ℕ) (b : List ℕ) → IsAscending b → IsAscending (put n b)
put-IsAscending n [] a = (tt, tt)
put-IsAscending n (x ∷ b) a =
    ground (arith, All-lower n x b, All-below-put x n b, put-IsAscending n b a.1)

pub sorted-IsAscending : (b : List ℕ) → IsAscending (sorted b)
sorted-IsAscending [] = tt
sorted-IsAscending (n ∷ b) = put-IsAscending n (sorted b) (sorted-IsAscending b)

pub is_nil-sorted : (b : List ℕ) → is_nil b ≡ true → sorted b ≡ []
is_nil-sorted [] h = refl
is_nil-sorted (x ∷ b) h = cc

abbrev pub list_bitmaps : Roaring
list_bitmaps = record {
  Bitmap = List ℕ;
  empty = [];
  insert_bit = λ n b. n ∷ b;
  contains = has;
  union = λ a b. a ++ b;
  inter = λ a b. filterb (has b) a;
  diff = λ a b. filterb (λ n. not (has b n)) a;
  below = count_down;
  is_empty = is_nil;
  iter = sorted;
  serialize = λ b. b;
  deserialize = λ bs. some bs;
  contains-empty = λ n. refl;
  contains-insert = λ m b n. refl;
  contains-union = has-append;
  contains-inter = λ a b. has-filterb (has b) a;
  contains-diff = λ a b. has-filterb (λ n. not (has b n)) a;
  contains-below = has-count_down;
  contains-iter = has-sorted;
  iter-IsAscending = sorted-IsAscending;
  is_empty-iter = is_nil-sorted;
  deserialize-serialize = λ b. refl;
}
