-- ===== src/Tests.antt =====
-- Concrete inputs: the packages' interfaces filled in, small runs of the models, and the theorems
-- applied to them.
pub mod Bitmaps
pub mod Codec
mod Index
mod Frames
mod Catalog
mod Chunker
pub mod Replay
mod Recovery
pub mod Packaged
pub mod Driving
pub mod Planning
mod Sync
mod Service
mod Uploader
mod Following
