-- ===== src/Policy.antt =====
-- packages/policy/src/stateweaver/policy and what it reads of packages/contracts: a request is evaluated
-- against ten constraints in a fixed order.
pub mod Paths
pub mod Models
pub mod Actions
pub mod Checks
pub mod Evaluator
pub mod Ownership
pub mod Shape
pub mod Permission
pub mod Outcomes
pub mod Waiting
pub mod Authorization
pub mod Issued
mod Tests
