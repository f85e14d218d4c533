-- ===== src/Reader.antt =====
-- The crate sillage-reader.
pub mod Index
pub mod Filter
pub mod Cache
pub mod Catalog
pub mod Decoded
pub mod Pacing
pub mod Replay
pub mod Sync
pub mod Service
pub mod Follow
pub mod Subscription
