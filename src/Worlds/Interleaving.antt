-- ===== src/Worlds/Interleaving.antt =====
-- The manager as a system of coroutines that take turns, and what holds after any interleaving.
mod EventLoop
pub mod Runs
pub mod Safety
pub use EventLoop.*
