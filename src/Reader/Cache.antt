-- ===== src/Reader/Cache.antt =====
-- The byte-budgeted LRU caches: `IndexCache` of sillage-reader/src/index.rs and `ChunkCache` of
-- sillage-reader/src/storage.rs, which are the same code over two types of values.
--
-- A cache is a mutex; a value is loaded outside of it. So the operations are the two critical
-- sections, and a run with several threads is a sequence of them.
use sillage.Prelude.{
  ℕ, zero, suc, ◌+◌, ◌-◌, Option, none, some, Bool, true, false, List, [], ◌∷◌, ltb, leb,
  if◌then◌else◌, length, Result, ok, err, lookup, insert, remove, add64, sub64, Eq, ◌&&◌,
}
use sillage.Common.Stream.{Stream, stream_beq, stream_eq}
pub mod Budget

pub record CacheKey : Type 0 where
  pub stream : Stream
  pub start_slot : ℕ

pub record CacheInner (K V : Type 0) : Type 0 where
  pub map : List (K × V)
  pub used : ℕ
  pub tick : ℕ
  pub last_used : List (K × ℕ)

module _ {K V : Type 0} ⦃e : Eq K⦄ (heap_bytes : V → ℕ) where
  -- `new`.
  abbrev pub empty_cache : CacheInner K V
  empty_cache = record { map = []; used = 0; tick = 0; last_used = [] }

  -- The recency of a key becomes the current tick.
  unfoldable pub touch : K → CacheInner K V → CacheInner K V
  touch k c = record c { tick = c.tick + 1; last_used = insert k c.tick c.last_used }

  -- The fast path: a hit, or nothing.
  unfoldable pub get_cached : K → CacheInner K V → Option V × CacheInner K V
  unfolding touch
  get_cached k c = elim (lookup k c.map) [ none ↦ (none, c) | some v ↦ (some v, touch k c) ]

  -- `min_by_key`: the first of the keys with the smallest tick.
  unfoldable pub oldest_of : K × ℕ → List (K × ℕ) → K × ℕ
  oldest_of best [] = best
  oldest_of best ((k, t) ∷ m) =
      let (b, s) = best in oldest_of (if ltb t s then (k, t) else (b, s)) m

  unfoldable pub oldest : List (K × ℕ) → Option K
  unfolding oldest_of
  oldest [] = none
  oldest (p ∷ m) = some ((oldest_of p m).0)

  unfoldable pub evict_key : K → CacheInner K V → CacheInner K V
  evict_key k c = record c {
    map = remove k c.map;
    last_used = remove k c.last_used;
    used = elim (lookup k c.map) [ none ↦ c.used | some v ↦ sub64 c.used (heap_bytes v) ];
  }

  -- The loop that evicts until the cache is under its budget or holds one entry. Each round
  -- removes one, so as many rounds as there are entries are enough.
  unfoldable pub evict : ℕ → ℕ → CacheInner K V → CacheInner K V
  unfolding evict_key
  evict zero budget c = c
  evict (suc fuel) budget c =
      if ltb budget c.used && ltb 1 (length c.map)
      then elim (oldest c.last_used) [ none ↦ c | some k ↦ evict fuel budget (evict_key k c) ]
      else c

  -- The entry of a loaded value, before the eviction.
  unfoldable pub add_entry : K → V → CacheInner K V → CacheInner K V
  unfolding touch
  add_entry k v c =
      let c' = touch k c in
      record c' { map = insert k v c'.map; used = add64 c'.used (heap_bytes v) }

  -- The slow path after the value is loaded: another thread may have inserted the key meanwhile.
  unfoldable pub put_loaded : ℕ → K → V → CacheInner K V → V × CacheInner K V
  unfolding touch evict add_entry
  put_loaded budget k v c = elim (lookup k c.map) [
    | some existing ↦ (existing, touch k c)
    | none ↦ (v, evict (suc (length c.map)) budget (add_entry k v c))
  ]

  -- `get_or_parse` and `get_or_decode` where no other thread comes between.
  unfoldable pub get_or_load :
      {E : Type 0} → ℕ → Result E V → K → CacheInner K V → Result E V × CacheInner K V
  unfolding get_cached put_loaded
  get_or_load budget loaded k c = elim (lookup k c.map) [
    | some v ↦ (ok v, touch k c)
    | none ↦ elim loaded [
      | err e ↦ (err e, c)
      | ok v ↦ let (r, c') = put_loaded budget k v c in (ok r, c')
    ]
  ]
