-- ===== src/Worlds.antt =====
-- packages/worlds: the world models, the in-memory store, and the manager over an adapter.
pub mod Models
pub mod Failure
pub mod Store
pub mod Indexing
pub mod Atomic
pub mod Separation
pub mod Soundness
pub mod Manager
pub mod Interleaving
mod Tests
