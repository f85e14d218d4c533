-- ===== src/Common.antt =====
-- The crate sillage-common, with the message types and the bitmaps that the crates take from
-- other packages.
pub mod Stream
pub mod Chunk
pub mod Idx
pub mod Update
pub mod Roaring
pub mod Disk
pub mod Packages
