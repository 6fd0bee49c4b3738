-- ===== src/Config.antt =====
-- internal/config: scenarios, their defaults, the adjacency matrix and the validation.
pub mod Types
pub mod Defaults
pub mod Topology
pub mod Validate
pub mod Sample
pub mod Assignment
