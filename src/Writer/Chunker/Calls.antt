-- ===== src/Writer/Chunker/Calls.antt =====
-- Histories of calls of the chunker, with failures at any of its operations on the disk
-- (sillage-writer/src/chunker.rs, called from sillage-writer/src/lane.rs).
use sillage.Prelude.{ℕ, refl, List, [], ◌∷◌, Result, ok, err, nat_eq, nat_ord}
use sillage.Common.Stream.{Stream}
use sillage.Common.Roaring.{Roaring}
use sillage.Common.Packages.{Packages}
use sillage.Common.Disk.{path_eq, Disk}
use sillage.Common.Disk.Runs.{Post}
use sillage.Writer.Chunker.{
  World, WriterConfig, Stamped, ChunkerError, ingest, tick, shut_down, new_chunker,
}
use sillage.Writer.Chunker.Sidecar.{Trio}
use sillage.Writer.Chunker.Keeps.{Good, ingest-Keeps, tick-Keeps, shut_down-Keeps}

-- What the writer's loop calls, with what the clock shows.
pub data Call : Type 0 where
  ingest_call : (now : ℕ) → Stamped → (slot : ℕ) → Call
  tick_call : (now : ℕ) → Call
  shut_down_call : Call

-- The world after a call, whether it fails or not.
unfoldable pub serve : (R : Roaring) → Packages → Call → World R → World R
serve R P (ingest_call now msg slot) w = (ingest R P now msg slot w).1
serve R P (tick_call now) w = (tick R P now w).1
serve R P shut_down_call w = (shut_down R P w).1

unfoldable pub serve_all : (R : Roaring) → Packages → List Call → World R → World R
serve_all R P [] w = w
serve_all R P (call ∷ calls) w = serve_all R P calls (serve R P call w)

module _ (R : Roaring) (P : Packages) (s : Stream) where
  Post-Good :
      (x : Result ChunkerError (Unit {0}) × World R)
      → Post (Good R P s) (λ _. Good R P s) x
      → Good R P s x.1
  Post-Good (ok a, w) good = good
  Post-Good (err e, w) good = good

  pub serve-Good : (call : Call) (w : World R) → Good R P s w → Good R P s (serve R P call w)
  unfolding serve
  serve-Good (ingest_call now msg slot) w good =
      Post-Good (ingest R P now msg slot w) (ingest-Keeps R P s now msg slot w good)
  serve-Good (tick_call now) w good = Post-Good (tick R P now w) (tick-Keeps R P s now w good)
  serve-Good shut_down_call w good = Post-Good (shut_down R P w) (shut_down-Keeps R P s w good)

  pub serve_all-Good :
      (calls : List Call) (w : World R) → Good R P s w → Good R P s (serve_all R P calls w)
  unfolding serve_all
  serve_all-Good [] w good = good
  serve_all-Good (call ∷ calls) w good =
      serve_all-Good calls (serve R P call w) (serve-Good call w good)

-- Whatever calls a new chunker serves, and whichever of its operations on the disk fail, a sidecar
-- under its final name has its payload and its index beside it under theirs, if this was so before.
pub serve_all-Trio :
    (R : Roaring) (P : Packages) (s : Stream) (cfg : WriterConfig) (d : Disk) (calls : List Call)
    → Trio d.files
    → Trio ((serve_all R P calls (record { chunker = new_chunker R s cfg; disk = d })).disk.files)
unfolding new_chunker
serve_all-Trio R P s cfg d calls t =
    (serve_all-Good R P s calls (record { chunker = new_chunker R s cfg; disk = d })
      (record { stream_same = refl; complete = t; paths = tt })).complete
