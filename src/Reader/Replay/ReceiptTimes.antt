-- ===== src/Reader/Replay/ReceiptTimes.antt =====
-- Interpolated receipt times stay within those of the chunk and follow the order of its messages
-- (sillage-reader/src/replay.rs).
use native.Mathlib.Nat.{mul-le-mul_right, div-le_of_le-mul, div-mul-le_self, le-div_iff_mul-le}
use sillage.Prelude.{
  ℕ, ◌+◌, ◌-◌, ◌*◌, ◌/◌, ◌%◌, ◌≤◌, ◌<◌, ◌≡◌, refl, none, some, ◌||◌, leb, eqb, if◌then◌else◌,
  u64_mod, arith, Bool-cases, inl, inr,
}
use sillage.Common.Chunk.{ChunkMeta}
use sillage.Common.Update.{SubscribeUpdate}
use sillage.Reader.Replay.{interpolate, extract_recv_ns, stamped_ns}

-- The share of a span at an ordinal below the count.
share : (ord span count : ℕ) → ord < count → ord * span / (count - 1) ≤ span
share ord span count h =
    let below : ord ≤ count - 1 = omega (arith, h) in
    div-le_of_le-mul (count - 1) (mul-le-mul_right span below)

share_mono : (a b span n : ℕ) → 0 < n → a ≤ b → a * span / n ≤ b * span / n
share_mono a b span n pos h =
    let scaled : a * span ≤ b * span = mul-le-mul_right span h in
    let whole : a * span / n * n ≤ a * span = div-mul-le_self (a * span) n in
    (le-div_iff_mul-le pos).1 (omega (arith, scaled, whole))

interpolate-value :
    (first last count ord : ℕ)
    → first ≤ last
    → last < u64_mod
    → ord < count
    → interpolate first last count ord ≡ (
        if leb count 1 || eqb last first then first else first + ord * (last - first) / (count - 1))
unfolding interpolate
interpolate-value first last count ord rising fits within =
    elim (Bool-cases (leb count 1 || eqb last first)) [
      | inl e ↦ rw (interpolate, e) refl
      | inr e ↦
          let span : (last + u64_mod - first) % u64_mod ≡ last - first =
            omega (arith, rising, fits) in
          let low : ord * (last - first) / (count - 1) ≤ last - first =
            share ord (last - first) count within in
          rw (interpolate, e, span) (omega (arith, low, rising, fits))
    ]

interpolate-Between :
    (first last count a b : ℕ)
    → first ≤ last
    → last < u64_mod
    → a ≤ b
    → b < count
    → (first ≤ interpolate first last count a)
      × (interpolate first last count a ≤ interpolate first last count b)
      × (interpolate first last count b ≤ last)
interpolate-Between first last count a b rising fits order within =
    let low : a < count = omega (arith, order, within) in
    let here = interpolate-value first last count a rising fits low in
    let there = interpolate-value first last count b rising fits within in
    let below = share b (last - first) count within in
    elim (Bool-cases (leb count 1 || eqb last first)) [
      | inl e ↦ ground (arith, e, here, there)
      | inr e ↦
          let step = share_mono a b (last - first) (count - 1) (ground (arith, e)) order in
          ground (arith, e, here, there, below, step)
    ]

-- Where messages have no stamps of their own and the sidecar's first receipt time is not after its
-- last, the times of ordinals below its count lie between the two, and later ordinals have no
-- earlier times.
pub extract_recv_ns-Between :
    (u v : SubscribeUpdate) (meta : ChunkMeta) (first last a b : ℕ)
    → u.created_at ≡ none
    → v.created_at ≡ none
    → meta.recv_ns_first ≡ some first
    → meta.recv_ns_last ≡ some last
    → first ≤ last
    → last < u64_mod
    → a ≤ b
    → b < meta.message_count
    → (s : ℕ) × (t : ℕ) × (extract_recv_ns u meta a ≡ some s)
      × (extract_recv_ns v meta b ≡ some t)
      × (first ≤ s)
      × (s ≤ t)
      × (t ≤ last)
unfolding extract_recv_ns stamped_ns
extract_recv_ns-Between u v meta first last a b plain plain' begins ends rising fits order within =
    let between = interpolate-Between first last meta.message_count a b rising fits order within in
    (
      interpolate first last meta.message_count a,
      interpolate first last meta.message_count b,
      rw (extract_recv_ns, plain, begins, ends) refl,
      rw (extract_recv_ns, plain', begins, ends) refl,
      between.0,
      between.1,
      between.2,
    )
