-- ===== src/Reader/Cache/Budget.antt =====
-- What the caches keep: the bytes they account for, the entries and their recency, and their
-- budget, under any interleaving of the critical sections (sillage-reader/src/index.rs,
-- storage.rs).
use sillage.Prelude.{
  u64_mod, ℕ, zero, suc, ◌+◌, ◌^◌, ◌≤◌, ◌<◌, ◌≡◌, refl, sym, ap, ◌∙◌, Option, none, some, Bool,
  true, false, ◌&&◌, ◌||◌, List, [], ◌∷◌, ltb, leb, length, Eq, lookup, insert, remove, arith,
  Option-cases, Bool-cases, List-cases, inl, inr, lookup-insert, lookup-remove,
}
use sillage.Reader.Cache.{
  CacheInner, empty_cache, touch, get_cached, oldest_of, oldest, evict_key, evict, add_entry,
  put_loaded,
}

abbrev pub is_some : {A : Type 0} → Option A → Bool
is_some none = false
is_some (some a) = true

-- Sizes that can be allocated.
abbrev pub half : ℕ
half = 2 ^ 63

-- The critical sections that the threads enter, in the order in which they do.
pub data Access (K V : Type 0) : Type 0 where
  fast : K → Access K V
  slow : K → V → Access K V

module _ {K V : Type 0} ⦃e : Eq K⦄ (heap_bytes : V → ℕ) where
  -- The bytes of all entries.
  abbrev pub total : List (K × V) → ℕ
  total [] = 0
  total ((k, v) ∷ m) = heap_bytes v + total m

  -- A key that the map has stands in it once.
  abbrev pub Unique : {W : Type 0} → List (K × W) → Type 0
  Unique [] = Unit {0}
  Unique ((k, w) ∷ m) = (lookup k m ≡ none) × Unique m

  module _ {W : Type 0} where
    Unique-insert : (k : K) (w : W) (m : List (K × W)) → Unique m → Unique (insert k w m)
    unfolding insert lookup
    Unique-insert k w [] u = (refl, tt)
    Unique-insert k w ((j, x) ∷ m) u =
        ground (arith, e.beq_iff j k, e.beq_iff k j, lookup-insert k j w m, Unique-insert k w m u.1)

    remove-absent : (k : K) (m : List (K × W)) → lookup k m ≡ none → remove k m ≡ m
    unfolding remove lookup
    remove-absent k [] h = refl
    remove-absent k ((j, x) ∷ m) h = ground (arith, remove-absent k m)

    Unique-remove : (k : K) (m : List (K × W)) → Unique m → Unique (remove k m)
    unfolding remove
    Unique-remove k [] u = tt
    Unique-remove k ((j, x) ∷ m) u = ground (arith, lookup-remove k j m, Unique-remove k m u.1)

    length-remove :
        (k : K) (m : List (K × W)) (w : W)
        → Unique m
        → lookup k m ≡ some w
        → suc (length (remove k m)) ≡ length m
    unfolding remove lookup
    length-remove k [] w u h = ground arith
    length-remove k ((j, x) ∷ m) w u h =
        ground (arith, e.beq_iff j k, remove-absent k m, length-remove k m w u.1)

    length-insert :
        (k : K) (w : W) (m : List (K × W))
        → lookup k m ≡ none
        → length (insert k w m) ≡ suc (length m)
    unfolding insert lookup
    length-insert k w [] h = refl
    length-insert k w ((j, x) ∷ m) h = ground (arith, length-insert k w m)

  total-remove :
      (k : K) (v : V) (m : List (K × V))
      → Unique m
      → lookup k m ≡ some v
      → heap_bytes v + total (remove k m) ≡ total m
  unfolding remove lookup
  total-remove k v [] u h = ground arith
  total-remove k v ((j, x) ∷ m) u h =
      ground (arith, e.beq_iff j k, remove-absent k m, total-remove k v m u.1)

  total-insert :
      (k : K) (v : V) (m : List (K × V))
      → lookup k m ≡ none
      → total (insert k v m) ≡ heap_bytes v + total m
  unfolding insert lookup
  total-insert k v [] h = refl
  total-insert k v ((j, x) ∷ m) h = ground (arith, total-insert k v m)

  -- What `min_by_key` finds is a key of the map.
  oldest_of-found :
      (p : K × ℕ) (m : List (K × ℕ))
      → is_some (lookup ((oldest_of heap_bytes p m).0) (p ∷ m)) ≡ true
  unfolding oldest_of lookup
  oldest_of-found p [] = ground (arith, e.beq_iff p.0 p.0)
  oldest_of-found p (q ∷ m) =
      ground (arith, e.beq_iff q.0 q.0, oldest_of-found p m, oldest_of-found q m)

  -- The bookkeeping of a cache: the bytes are those of the entries, and each has its recency.
  pub record IsWf (c : CacheInner K V) : Type 0 where
    pub unique : Unique c.map
    pub used_total : c.used ≡ total c.map
    pub used_word : c.used < u64_mod
    pub same_keys : (k : K) → is_some (lookup k c.last_used) ≡ is_some (lookup k c.map)

  abbrev pub WithinBudget : ℕ → CacheInner K V → Type 0
  WithinBudget budget c = (leb c.used budget || leb (length c.map) 1) ≡ true

  touch-IsWf :
      (k : K) (c : CacheInner K V)
      → is_some (lookup k c.map) ≡ true
      → IsWf c
      → IsWf (touch heap_bytes k c)
  unfolding touch
  touch-IsWf k c h w = record {
    unique = w.unique;
    used_total = w.used_total;
    used_word = w.used_word;
    same_keys = λ j. ground (
      arith,
      lookup-insert k j c.tick c.last_used,
      e.beq_iff k j,
      w.same_keys j,
      ap (λ i. is_some (lookup i c.map)) {x = k} {y = j},
    );
  }

  evict_key-IsWf :
      (k : K) (v : V) (c : CacheInner K V)
      → lookup k c.map ≡ some v
      → IsWf c
      → IsWf (evict_key heap_bytes k c)
  unfolding evict_key
  evict_key-IsWf k v c h w = record {
    unique = Unique-remove k c.map w.unique;
    used_total =
        rw (evict_key, h)
          (omega (arith, w.used_total, w.used_word, total-remove k v c.map w.unique h));
    used_word = rw (evict_key, h) (omega arith);
    same_keys =
        λ j. ground (arith, lookup-remove k j c.last_used, lookup-remove k j c.map, w.same_keys j);
  }

  oldest-found :
      (k : K) (m : List (K × ℕ))
      → is_some (lookup k m) ≡ true
      → (j : K) × ((oldest heap_bytes m ≡ some j) × (is_some (lookup j m) ≡ true))
  unfolding oldest lookup
  oldest-found k [] h = ground arith
  oldest-found k (p ∷ m) h = ((oldest_of heap_bytes p m).0, (refl, oldest_of-found p m))

  present :
      (j : K) (m : List (K × V)) → is_some (lookup j m) ≡ true → (v : V) × (lookup j m ≡ some v)
  present j m h = elim (Option-cases (lookup j m)) [ inl q ↦ ground (arith, q) | inr vq ↦ vq ]

  -- In a cache that is over its budget with two entries there is a key to evict.
  evictable :
      (c : CacheInner K V)
      → ltb 1 (length c.map) ≡ true
      → IsWf c
      → (j : K) × ((v : V) × ((oldest heap_bytes c.last_used ≡ some j) × (lookup j c.map ≡ some v)))
  unfolding lookup
  evictable c h w = elim (List-cases c.map) [
    | inl q ↦ ground (arith, q)
    | inr ((k, v), (m, q)) ↦
        let here : is_some (lookup k c.map) ≡ true = rw q (ground (arith, e.beq_iff k k)) in
        let (j, found) = oldest-found k c.last_used (w.same_keys k ∙ here) in
        let (v', at) = present j c.map (sym (w.same_keys j) ∙ found.1) in (j, (v', (found.0, at)))
  ]

  evict-IsWf :
      (fuel budget : ℕ) (c : CacheInner K V)
      → length c.map ≤ fuel
      → IsWf c
      → IsWf (evict heap_bytes fuel budget c) × WithinBudget budget (evict heap_bytes fuel budget c)
  unfolding evict evict_key
  evict-IsWf zero budget c h w = (w, ground (arith, h))
  evict-IsWf (suc fuel) budget c h w =
      elim (Bool-cases (ltb budget c.used && ltb 1 (length c.map))) [
        | inr q ↦ rw (evict, q) (w, ground (arith, q))
        | inl q ↦
            let (j, (v, (found, at))) = evictable c (ground (arith, q)) w in
            rw (evict, q, found)
              (evict-IsWf fuel budget (evict_key heap_bytes j c)
                (omega (arith, h, length-remove j c.map v w.unique at)) (evict_key-IsWf j v c at w))
      ]

  unfoldable pub serve : ℕ → List (Access K V) → CacheInner K V → CacheInner K V
  unfolding get_cached put_loaded
  serve budget [] c = c
  serve budget (fast k ∷ run) c = serve budget run ((get_cached heap_bytes k c).1)
  serve budget (slow k v ∷ run) c = serve budget run ((put_loaded heap_bytes budget k v c).1)

  get_cached-IsWf :
      (budget : ℕ) (k : K) (c : CacheInner K V)
      → IsWf c
      → WithinBudget budget c
      → IsWf ((get_cached heap_bytes k c).1) × WithinBudget budget ((get_cached heap_bytes k c).1)
  unfolding get_cached touch
  get_cached-IsWf budget k c w b = elim (Option-cases (lookup k c.map)) [
    | inl q ↦ rw (get_cached, q) (w, b)
    | inr (v, q) ↦ rw (get_cached, q) (touch-IsWf k c (rw q refl) w, b)
  ]

  module _ (small : (v : V) → heap_bytes v < half) where
    total-small : (m : List (K × V)) → length m ≤ 1 → total m < half
    total-small [] h = omega arith
    total-small ((k, v) ∷ []) h = omega (arith, small v)
    total-small (p ∷ q ∷ m) h = ground (arith, h)

    add_entry-IsWf :
        (budget : ℕ) (k : K) (v : V) (c : CacheInner K V)
        → budget < half
        → lookup k c.map ≡ none
        → IsWf c
        → WithinBudget budget c
        → IsWf (add_entry heap_bytes k v c)
    unfolding add_entry touch
    add_entry-IsWf budget k v c room absent w b = record {
      unique = Unique-insert k v c.map w.unique;
      used_total =
          let within : c.used < half = ground (arith, b, w.used_total, total-small c.map, room) in
          omega (arith, w.used_total, within, small v, total-insert k v c.map absent);
      used_word = omega arith;
      same_keys = λ j.
          ground
            (arith, lookup-insert k j c.tick c.last_used, lookup-insert k j v c.map, w.same_keys j);
    }

    put_loaded-IsWf :
        (budget : ℕ) (k : K) (v : V) (c : CacheInner K V)
        → budget < half
        → IsWf c
        → WithinBudget budget c
        → IsWf ((put_loaded heap_bytes budget k v c).1)
          × WithinBudget budget ((put_loaded heap_bytes budget k v c).1)
    unfolding put_loaded touch add_entry
    put_loaded-IsWf budget k v c room w b = elim (Option-cases (lookup k c.map)) [
      | inr (old, q) ↦ rw (put_loaded, q) (touch-IsWf k c (rw q refl) w, b)
      | inl q ↦
          rw (put_loaded, q)
            (evict-IsWf (suc (length c.map)) budget (add_entry heap_bytes k v c)
              (omega (arith, length-insert k v c.map q)) (add_entry-IsWf budget k v c room q w b))
    ]

    serve-IsWf :
        (budget : ℕ) (run : List (Access K V)) (c : CacheInner K V)
        → budget < half
        → IsWf c
        → WithinBudget budget c
        → IsWf (serve budget run c) × WithinBudget budget (serve budget run c)
    unfolding serve
    serve-IsWf budget [] c room w b = (w, b)
    serve-IsWf budget (fast k ∷ run) c room w b =
        let next = get_cached-IsWf budget k c w b in
        serve-IsWf budget run ((get_cached heap_bytes k c).1) room next.0 next.1
    serve-IsWf budget (slow k v ∷ run) c room w b =
        let next = put_loaded-IsWf budget k v c room w b in
        serve-IsWf budget run ((put_loaded heap_bytes budget k v c).1) room next.0 next.1

  -- In whichever order threads hit and insert, a new cache keeps its bookkeeping: the bytes that it
  -- accounts for are those of its entries, no key is twice, each has its recency, and the bytes are
  -- within the budget or there is at most one entry. Budget and values are below 2 ^ 63 bytes.
  pub serve-empty_cache :
      (budget : ℕ) (run : List (Access K V))
      → ((v : V) → heap_bytes v < half)
      → budget < half
      → IsWf (serve budget run (empty_cache heap_bytes))
        × WithinBudget budget (serve budget run (empty_cache heap_bytes))
  unfolding lookup
  serve-empty_cache budget run small room =
      serve-IsWf small budget run (empty_cache heap_bytes) room
        (record { unique = tt; used_total = refl; used_word = omega arith; same_keys = λ k. refl })
        (ground arith)
