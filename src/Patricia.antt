-- ===== src/Patricia.antt =====
-- common/src/patricia_map.rs: the authenticated map from hashes to hashes.
pub mod Segment
pub mod Tree
pub mod Proof
pub mod Map
