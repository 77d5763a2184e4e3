-- ===== src/Contracts.antt =====
-- What the packages share of packages/contracts/src/stateweaver/contracts.
pub mod Scope
pub mod Actions
pub mod States
pub mod Fragments
pub mod Oracles
pub mod Receipts
mod Tests
