-- ===== src/Reader/Sync/Diff.antt =====
-- `diff_for_sync` of sillage-reader/src/sync.rs: what is missing, in order.
use mathlib.Core.Path.{fun_ext}
use mathlib.Core.Bool.{◌&&◌}
use sillage.Prelude.{
  ℕ, ◌+◌, ◌-◌, ◌≡◌, refl, ap, ◌∙◌, Bool, true, false, List, [], ◌∷◌, if◌then◌else◌, filterb, map,
  arith, Bool-cases, inl, inr, All, ◌||◌, eqb, leb, anyb, not, u64_mod, ◌*◌, ◌<◌,
}
use sillage.Common.Stream.{stream_beq}
use sillage.Reader.Sync.{
  ChunkKey, key_of, key_beq, R2Chunk, retention_slots, newest, sorts_before, place, sort, is_needed,
  diff_for_sync,
}

-- No chunk sorts before one that stands in front of it.
abbrev pub Sorted : List R2Chunk → Type 0
Sorted [] = Unit {0}
Sorted (c ∷ cs) = All (λ d. sorts_before d c ≡ false) cs × Sorted cs

before_trans :
    (a b c : R2Chunk)
    → sorts_before b a ≡ false
    → sorts_before c b ≡ false
    → sorts_before c a ≡ false
before_trans a b c h k = ground arith

before_asym : (a b : R2Chunk) → sorts_before a b ≡ true → sorts_before b a ≡ false
before_asym a b h = ground arith

after-All :
    (a b : R2Chunk) (cs : List R2Chunk)
    → sorts_before b a ≡ false
    → All (λ d. sorts_before d b ≡ false) cs
    → All (λ d. sorts_before d a ≡ false) cs
after-All a b [] h k = tt
after-All a b (c ∷ cs) h k = (before_trans a b c h k.0, after-All a b cs h k.1)

place-All :
    (a c : R2Chunk) (cs : List R2Chunk)
    → sorts_before c a ≡ false
    → All (λ d. sorts_before d a ≡ false) cs
    → All (λ d. sorts_before d a ≡ false) (place c cs)
unfolding place
place-All a c [] h k = (h, tt)
place-All a c (d ∷ ds) h k = elim (Bool-cases (sorts_before d c)) [
  | inl q ↦ rw (place, q) (k.0, place-All a c ds h k.1)
  | inr q ↦ rw (place, q) (h, k)
]

place-Sorted : (c : R2Chunk) (cs : List R2Chunk) → Sorted cs → Sorted (place c cs)
unfolding place
place-Sorted c [] s = (tt, tt)
place-Sorted c (d ∷ ds) s = elim (Bool-cases (sorts_before d c)) [
  | inl q ↦ rw (place, q) (place-All d c ds (before_asym d c q) s.0, place-Sorted c ds s.1)
  | inr q ↦ rw (place, q) ((q, after-All c d ds q s.0), s)
]

sort-Sorted : (cs : List R2Chunk) → Sorted (sort cs)
unfolding sort
sort-Sorted [] = tt
sort-Sorted (c ∷ cs) = place-Sorted c (sort cs) (sort-Sorted cs)

-- How many chunks pass a test.
abbrev pub tally : (R2Chunk → Bool) → List R2Chunk → ℕ
tally p [] = 0
tally p (c ∷ cs) = (if p c then 1 else 0) + tally p cs

place-tally :
    (p : R2Chunk → Bool) (c : R2Chunk) (cs : List R2Chunk) → tally p (place c cs) ≡ tally p (c ∷ cs)
unfolding place
place-tally p c [] = refl
place-tally p c (d ∷ ds) = elim (Bool-cases (sorts_before d c)) [
  | inl q ↦ rw (place, q) (omega (arith, place-tally p c ds))
  | inr q ↦ rw (place, q) refl
]

pub sort-tally : (p : R2Chunk → Bool) (cs : List R2Chunk) → tally p (sort cs) ≡ tally p cs
unfolding sort
sort-tally p [] = refl
sort-tally p (c ∷ cs) =
    place-tally p c (sort cs) ∙ ap (λ n. (if p c then 1 else 0) + n) (sort-tally p cs)

pub filterb-tally :
    (p q : R2Chunk → Bool) (cs : List R2Chunk) → tally p (filterb q cs) ≡ tally (λ c. q c && p c) cs
filterb-tally p q [] = refl
filterb-tally p q (c ∷ cs) = elim (Bool-cases (q c)) [
  | inl e ↦ rw e (ap (λ n. (if p c then 1 else 0) + n) (filterb-tally p q cs))
  | inr e ↦ rw e (omega (arith, filterb-tally p q cs))
]

-- The first slot whose chunks are kept.
abbrev pub cutoff_of : List ℕ → ℕ → ℕ
cutoff_of ends hours = newest ends - retention_slots hours

-- A chunk of this stream and these slots is held.
abbrev pub holds : List ChunkKey → R2Chunk → Bool
holds [] c = false
holds (k ∷ ks) c =
    (stream_beq c.stream k.stream && (eqb c.start_slot k.start_slot && eqb c.end_slot k.end_slot))
    || holds ks c

-- No chunk of the bucket ends more than the hours' slots, at 2.5 slots a second, after this slot.
abbrev pub within : List R2Chunk → ℕ → ℕ → Bool
within [] hours end = true
within (r ∷ rs) hours end = leb r.end_slot (end + 9000 * hours) && within rs hours end

abbrev pub wanted : List ChunkKey → List R2Chunk → ℕ → R2Chunk → Bool
wanted local remote hours c = within remote hours c.end_slot && not (holds local c)

anyb-holds : (local : List ChunkKey) (c : R2Chunk) → anyb (key_beq (key_of c)) local ≡ holds local c
anyb-holds [] c = refl
anyb-holds (k ∷ ks) c = ground (arith, anyb-holds ks c)

newest-within :
    (remote : List R2Chunk) (hours end : ℕ)
    → leb (newest (map (λ (c : R2Chunk). c.end_slot) remote)) (end + 9000 * hours)
      ≡ within remote hours end
unfolding newest
newest-within [] hours end = ground arith
newest-within (r ∷ rs) hours end = ground (arith, newest-within rs hours end)

retention_slots-eq : (hours : ℕ) → hours * 18_000 < u64_mod → retention_slots hours ≡ 9000 * hours
unfolding retention_slots
retention_slots-eq hours small = omega (arith, small)

is_needed-wanted :
    (local : List ChunkKey) (remote : List R2Chunk) (hours : ℕ) (c : R2Chunk)
    → hours * 18_000 < u64_mod
    → is_needed local (cutoff_of (map (λ (c : R2Chunk). c.end_slot) remote) hours) c
      ≡ wanted local remote hours c
unfolding is_needed
is_needed-wanted local remote hours c small = ground (
  arith,
  anyb-holds local c,
  newest-within remote hours c.end_slot,
  retention_slots-eq hours small,
)

-- The chunks to download are in the order of the stream's name and the start, and they are the
-- chunks of the bucket that are not held and end at most the retention window, 9000 slots an hour,
-- before every other chunk of the bucket, each as often as it is listed. The slots of twice the
-- window fit into 64 bits.
pub diff_for_sync-Sorted :
    (local : List ChunkKey) (remote : List R2Chunk) (hours : ℕ)
    → hours * 18_000 < u64_mod
    → Sorted (diff_for_sync local remote hours)
      × ((p : R2Chunk → Bool)
          → tally p (diff_for_sync local remote hours)
            ≡ tally (λ c. wanted local remote hours c && p c) remote)
unfolding diff_for_sync
diff_for_sync-Sorted local remote hours small =
    let needed = is_needed local (cutoff_of (map (λ (c : R2Chunk). c.end_slot) remote) hours) in
    (
      sort-Sorted (filterb needed remote),
      λ p.
          sort-tally p (filterb needed remote)
          ∙ filterb-tally p needed remote
          ∙ ap (λ (q : R2Chunk → Bool). tally (λ c. q c && p c) remote)
              (fun_ext (λ c. is_needed-wanted local remote hours c small)),
    )
