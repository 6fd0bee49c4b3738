-- ===== src/Examples.antt =====
-- Concrete data, and the theorems applied to it.
pub mod Fixtures
mod Peers
mod Streams
pub mod Scenarios
mod Graphs
mod Domains
mod Plans
mod Sending
mod Reports
