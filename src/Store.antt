-- ===== src/Store.antt =====
-- apps/api/kerislab/store.py: the in-memory store and the actions on it.
pub mod State
pub mod Collections
