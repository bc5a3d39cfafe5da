-- ===== src/Ws.antt =====
-- internal/ws: the frames that the browsers of the console get.
pub mod Hub
