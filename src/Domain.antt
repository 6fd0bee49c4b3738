-- ===== src/Domain.antt =====
-- internal/config/domain.go: the generation of topologies.
pub mod Edge
pub mod Rng
pub mod Components
pub mod Models
pub mod Preferential
pub mod DoubleRing
pub mod Opportunistic
pub mod SmallWorld
