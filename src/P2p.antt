-- ===== src/P2p.antt =====
-- internal/p2p: the peer process.
pub mod Wire
pub mod Sender
pub mod Knowledge
pub mod HopWave
pub mod Peer
pub mod Send
