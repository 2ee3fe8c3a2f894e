-- ===== src/Epics.antt =====
-- The EPICS adapter (lewis/adapters/epics.py).
pub mod Pv
pub mod Driver
pub mod Adapter
mod Tests
