-- ===== src/Writer/Index/Ordinals.antt =====
-- The index of a whole chunk (sillage-writer/src/index.rs).
use sillage.Prelude.{
  true, ℕ, zero, suc, ◌<◌, ◌+◌, ◌≡◌, refl, ◌∙◌, ap, String, Option, none, some, Bool, false, ◌&&◌,
  ◌||◌, List, [], ◌∷◌, eqb, get_elem?, lookup, insert, string_eq, arith, ◌==◌, anyb, length, ◌%◌,
  u32_mod,
}
use sillage.Common.Stream.{Stream, tx, acct, block}
use sillage.Common.Idx.{DimValue, DimValueType, value_eq, value_ord}
use sillage.Common.Update.{SubscribeUpdate}
use sillage.Common.Roaring.{Roaring}
use sillage.Writer.Index.{IndexBuilder, for_stream, dims_of_stream, observe}
use sillage.Writer.Index.Mentions.{mentions}
use sillage.Writer.Index.Observe.{IsWf, bit, has_dim, observe-Adds}

-- The message at the ordinal `n` of the list, whose first message has the ordinal `o`, mentions it.
abbrev pub mentioned_at : String → DimValue → Stream → ℕ → List SubscribeUpdate → ℕ → Bool
mentioned_at d v s o [] n = false
mentioned_at d v s o (u ∷ us) n = (eqb o n && mentions d v s u) || mentioned_at d v s (suc o) us n

abbrev pub mentions? : String → DimValue → Stream → Option SubscribeUpdate → Bool
mentions? d v s none = false
mentions? d v s (some u) = mentions d v s u

mentioned_at-lt :
    (d : String) (v : DimValue) (s : Stream) (o : ℕ) (us : List SubscribeUpdate) (n : ℕ)
    → n < o
    → mentioned_at d v s o us n ≡ false
mentioned_at-lt d v s o [] n h = refl
mentioned_at-lt d v s o (u ∷ us) n h =
    ground (arith, mentioned_at-lt d v s (suc o) us n (omega arith))

mentioned_at-add :
    (d : String) (v : DimValue) (s : Stream) (o : ℕ) (us : List SubscribeUpdate) (n : ℕ)
    → mentioned_at d v s o us (o + n) ≡ mentions? d v s (get_elem? us n)
mentioned_at-add d v s o [] n = refl
mentioned_at-add d v s o (u ∷ us) zero = ground (arith, mentioned_at-lt d v s (suc o) us (o + 0))
mentioned_at-add d v s o (u ∷ us) (suc n) =
    let e : o + suc n ≡ suc o + n = omega arith in
    rw e (ground (arith, mentioned_at-add d v s (suc o) us n))

-- The chunk's loop: the messages in order, each at its ordinal, `message_count as u32`.
unfoldable pub observe_all :
    (R : Roaring) → ℕ → List SubscribeUpdate → IndexBuilder R → IndexBuilder R
observe_all R o [] b = b
observe_all R o (u ∷ us) b = observe_all R (suc o) us (observe R (o % u32_mod) u b)

module _ (R : Roaring) (d : String) (v : DimValue) where
  observe_all-bit :
      (us : List SubscribeUpdate) (o : ℕ) (b : IndexBuilder R) (n : ℕ)
      → o + length us < u32_mod
      → bit R (observe_all R o us b) d v n
        ≡ ((has_dim R b d && mentioned_at d v b.stream o us n) || bit R b d v n)
  unfolding observe_all
  observe_all-bit [] o b n few = ground arith
  observe_all-bit (u ∷ us) o b n few =
      let same_ord : o % u32_mod ≡ o = omega (arith, few) in
      let a = observe-Adds R (o % u32_mod) d v u b in
      let same : mentioned_at d v (observe R (o % u32_mod) u b).stream (suc o) us n
          ≡ mentioned_at d v b.stream (suc o) us n =
        ap (λ s. mentioned_at d v s (suc o) us n) a.stream_same in
      ground (
        arith,
        observe_all-bit us (suc o) (observe R (o % u32_mod) u b) n (omega (arith, few)),
        a.bits n,
        a.dims_same,
        same,
        same_ord,
      )

  -- The dimensions of the stream, each with an empty map.
  for_stream-bit : (s : Stream) (n : ℕ) → bit R (for_stream R s) d v n ≡ false
  unfolding for_stream lookup insert
  for_stream-bit tx n = ground arith
  for_stream-bit acct n = ground arith
  for_stream-bit block n = ground arith

  for_stream-stream : (s : Stream) → (for_stream R s).stream ≡ s
  unfolding for_stream
  for_stream-stream tx = refl
  for_stream-stream acct = refl
  for_stream-stream block = refl

-- The dimension is one of the stream's.
abbrev pub registered : Stream → String → Bool
registered s d = anyb (λ (p : String × DimValueType). p.0 == d) (dims_of_stream s)

pub has_dim-for_stream :
    (R : Roaring) (s : Stream) (d : String) → has_dim R (for_stream R s) d ≡ registered s d
unfolding for_stream lookup insert dims_of_stream
has_dim-for_stream R tx d = ground arith
has_dim-for_stream R acct d = ground arith
has_dim-for_stream R block d = ground arith

-- The index of a chunk lists the ordinal `n` under a value of a dimension of its stream exactly
-- when there is a message of that ordinal and it mentions the value, for fewer than 2 ^ 32
-- messages.
pub observe_all-for_stream :
    (R : Roaring) (s : Stream) (us : List SubscribeUpdate) (d : String) (v : DimValue) (n : ℕ)
    → length us < u32_mod
    → bit R (observe_all R 0 us (for_stream R s)) d v n
      ≡ (registered s d && mentions? d v s (get_elem? us n))
observe_all-for_stream R s us d v n few = ground (
  arith,
  observe_all-bit R d v us 0 (for_stream R s) n (omega (arith, few)),
  for_stream-bit R d v s n,
  has_dim-for_stream R s d,
  ap (λ t. mentioned_at d v t 0 us n) (for_stream-stream R d v s),
  ap (mentioned_at d v s 0 us) {x = n} {y = 0 + n} (omega arith) ∙ mentioned_at-add d v s 0 us n,
)

module _ (R : Roaring) where
  for_stream-IsWf : (s : Stream) → IsWf R (for_stream R s)
  unfolding for_stream lookup insert
  for_stream-IsWf tx = record { sorted = λ e m h. ground arith; closed = λ e h. ground arith }
  for_stream-IsWf acct = record { sorted = λ e m h. ground arith; closed = λ e h. ground arith }
  for_stream-IsWf block = record { sorted = λ e m h. ground arith; closed = λ e h. ground arith }

  observe_all-IsWf :
      (us : List SubscribeUpdate) (o : ℕ) (b : IndexBuilder R)
      → IsWf R b
      → IsWf R (observe_all R o us b)
  unfolding observe_all
  observe_all-IsWf [] o b w = w
  observe_all-IsWf (u ∷ us) o b w =
      observe_all-IsWf us (suc o) (observe R (o % u32_mod) u b)
        ((observe-Adds R (o % u32_mod) "" (DimValue.bool true) u b).wf w)

  -- The index of a chunk is well formed.
  pub observe_all-for_stream-IsWf :
      (s : Stream) (us : List SubscribeUpdate) → IsWf R (observe_all R 0 us (for_stream R s))
  observe_all-for_stream-IsWf s us = observe_all-IsWf us 0 (for_stream R s) (for_stream-IsWf s)
