-- ===== src/Dns.antt =====
-- internal/dnssched: which nodes the resolution of a domain points to.
pub mod Plan
pub mod Coalesce
