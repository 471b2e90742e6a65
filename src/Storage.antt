-- ===== src/Storage.antt =====
-- src/storage: how a file becomes chunks, and how ranges of it are read back.
pub mod Chunk
pub mod BlockCache
pub mod ByteRange
pub mod ChunkBuffer
pub mod Engine
pub mod Database
mod Samples
pub mod Upload
pub mod Purge
pub mod Journey
