-- ===== src/Controller.antt =====
-- internal/controller: the coordination of a Swarm run, and the plan of the traffic.
pub mod Runtime
pub mod Coordinator
pub mod Handlers
pub mod Traffic
