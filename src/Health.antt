-- ===== src/Health.antt =====
-- internal/health/health.go: the heartbeat monitor of the control plane.
pub mod State
pub mod Observe
pub mod Tick
pub mod Episodes
mod Samples
