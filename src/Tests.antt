-- ===== src/Tests.antt =====
-- Tests: services in memory that keep the documented laws, and each theorem at a concrete input.
pub mod Memory
mod Launches
mod Sweeps
mod Messages
mod Items
mod Orphans
mod Timeline
mod Cost
mod Nodes
mod Suites
mod Adoption
