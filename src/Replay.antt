-- ===== src/Replay.antt =====
-- packages/replay/src/stateweaver/replay: a plan is executed from a pinned root, step by step, and what
-- happened is recorded.
pub mod Captures
pub mod Models
pub mod Results
pub mod Ports
pub mod Steps
pub mod Kernel
pub mod Determinism
mod Tests
