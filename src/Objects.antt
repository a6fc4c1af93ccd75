-- ===== src/Objects.antt =====
-- node/src/models/object.rs: objects, which are kept as chunks of bytes under their hashes.
pub mod Header
pub mod Building
pub mod Reading
