-- ===== src/Workflow.antt =====
-- workflows/world/src/stateweaver/workflows/world: the promotion of candidates into allocated worlds.
pub mod Models
pub mod Relations
pub mod State
pub mod Allocation
pub mod Advance
pub mod Closing
pub mod Trail
pub mod Ownership
pub mod Picked
pub mod Affordable
pub mod Granting
pub mod Tracking
pub mod Sound
pub mod Promotions
pub mod Total
pub mod Calls
mod Tests
