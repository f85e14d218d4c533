-- ===== src/Reader/Replay.antt =====
-- sillage-reader/src/replay.rs: the receipt times that a replay is paced by, and the names that a
-- message is sent with.
use sillage.Prelude.{
  ℕ, ◌+◌, ◌-◌, ◌*◌, ◌/◌, ◌%◌, Option, none, some, Bool, true, false, ◌||◌, List, String, leb, eqb,
  if◌then◌else◌, add64, mul64, u64_mod, ℤ, is_nonneg, as_u64,
}
use sillage.Common.Chunk.{ChunkMeta}
use sillage.Common.Update.{Timestamp, SubscribeUpdate}
pub mod ReceiptTimes
pub mod Plan
pub mod Cursor
pub mod Drive

unfoldable pub set_filters : SubscribeUpdate → List String → SubscribeUpdate
set_filters update names = record update { filters = names }

-- The time of the message's own stamp, unless it lies before the epoch.
stamped_ns : Option Timestamp → Option ℕ
stamped_ns none = none
stamped_ns (some ts) =
    if is_nonneg ts.seconds
    then some (add64 (mul64 (as_u64 ts.seconds) 1_000_000_000) (as_u64 ts.nanos))
    else none

-- Between the receipt times of the chunk's first and last message, by the ordinal. The product is
-- computed in a u128, which holds it, and the quotient is cut to a u64.
unfoldable pub interpolate : ℕ → ℕ → ℕ → ℕ → ℕ
interpolate first last count ord =
    if leb count 1 || eqb last first
    then first
    else (let span = (last + u64_mod - first) % u64_mod in
        add64 first ((ord * span / (count - 1)) % u64_mod))

abbrev pub unwrap_or : Option ℕ → ℕ → ℕ
unwrap_or none d = d
unwrap_or (some n) d = n

unfoldable pub extract_recv_ns : SubscribeUpdate → ChunkMeta → ℕ → Option ℕ
unfolding stamped_ns interpolate
extract_recv_ns msg meta ord = elim (stamped_ns msg.created_at) [
  | some t ↦ some t
  | none ↦ elim meta.recv_ns_first [
    | none ↦ none
    | some first ↦
        some (interpolate first (unwrap_or meta.recv_ns_last first) meta.message_count ord)
  ]
]
