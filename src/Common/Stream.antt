-- ===== src/Common/Stream.antt =====
-- sillage-common/src/stream.rs: the three streams.
use sillage.Prelude.{String, ◌≡◌, ◌↔◌, Bool, true, false, List, [], ◌∷◌, Eq, arith}

pub data Stream : Type 0 where
  tx acct block : Stream

abbrev pub as_str : Stream → String
as_str tx = "tx"
as_str acct = "acct"
as_str block = "block"

-- `Stream::all`.
abbrev pub all_streams : List Stream
all_streams = tx ∷ acct ∷ block ∷ []

abbrev pub stream_beq : Stream → Stream → Bool
stream_beq tx tx = true
stream_beq acct acct = true
stream_beq block block = true
stream_beq _ _ = false

pub stream_beq_iff : (a b : Stream) → (stream_beq a b ≡ true) ↔ (a ≡ b)
stream_beq_iff a b = ground arith

instance abbrev pub stream_eq : Eq Stream
stream_eq = record { beq = stream_beq; beq_iff = stream_beq_iff }
