-- ===== src/Tunnel.antt =====
-- internal/tunnel: the connections of the agents to the master.
pub mod Enroll
pub mod Sessions
pub mod Waiters
