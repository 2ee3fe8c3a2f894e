-- ===== src/Julabo.antt =====
-- The simulated Julabo circulator (lewis/devices/julabo).
pub mod Device
pub mod Limited
mod Tests
