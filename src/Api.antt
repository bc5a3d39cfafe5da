-- ===== src/Api.antt =====
-- internal/api: the part of the HTTP layer that keeps state.
pub mod LoginRate
