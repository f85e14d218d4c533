-- ===== src/Writer.antt =====
-- The crate sillage-writer.
pub mod Index
pub mod Chunker
pub mod Recovery
pub mod Uploader
