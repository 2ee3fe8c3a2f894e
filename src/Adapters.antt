-- ===== src/Adapters.antt =====
-- The base class of adapters, and the collection that runs them (lewis/core/adapters.py).
pub mod Class
pub mod Collection
mod Tests
