-- ===== src/Worlds/Separation.antt =====
-- Who holds which environment: live worlds and pending reservations, and that no two of them hold
-- environments that could touch one another.
mod Holders
pub mod Claims
pub mod Published
pub use Holders.*
