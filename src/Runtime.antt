-- ===== src/Runtime.antt =====
-- The runtime: execution nodes, their hazards, the dependency graph and the schedulers.
pub mod Node
pub mod Tracker
pub mod Hazards
pub mod Graph
pub mod Plan
pub mod Scheduler
pub mod Passes
