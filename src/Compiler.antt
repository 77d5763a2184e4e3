-- ===== src/Compiler.antt =====
-- packages/compiler/src/stateweaver/compiler: a chain of fragments is found that leads from a root state to a
-- goal.
pub mod States
pub mod Models
pub mod Nodes
pub mod Schedule
pub mod Cycles
pub mod Compile
pub mod Handover
mod Tests
