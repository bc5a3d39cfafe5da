-- ===== src/Agent.antt =====
-- internal/agent: what runs on an edge node. Reconnection, the log buffer and the rate limit of requests.
pub mod Backoff
pub mod LogBuffer
pub mod RateLimit
pub mod Verify
pub mod Drain
