-- ===== src/Search.antt =====
-- packages/search: the budget ledger, the candidates and the tiered beam search.
pub mod Budget
pub mod Models
pub mod Controller
pub mod Beam
pub mod Selection
pub mod Selected
pub mod Tracing
pub mod Stages
pub mod Ordering
pub mod Batches
pub mod Filing
pub mod Complete
pub mod Returns
pub mod Advance
pub mod Granted
pub mod Reasons
pub mod Coherent
mod Tests
