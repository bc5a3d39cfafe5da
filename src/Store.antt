-- ===== src/Store.antt =====
-- internal/store: the tables that the control plane keeps, as far as a statement changes them.
pub mod Nodes
