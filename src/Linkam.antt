-- ===== src/Linkam.antt =====
-- The simulated Linkam T95 (lewis/devices/linkam_t95).
pub mod Device
pub mod Interface
pub mod Safety
pub mod Rate
pub mod Status
mod Tests
