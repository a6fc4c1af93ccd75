-- ===== src/Hub.antt =====
-- The hub: the nodes that are connected to it, and how it passes on what they ask.
pub mod Sampler
pub mod Room
pub mod Resolving
pub mod Requests
