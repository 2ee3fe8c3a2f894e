-- ===== src/Chopper.antt =====
-- The simulated chopper (lewis/devices/chopper).
pub mod Device
pub mod Commands
pub mod Allowed
pub mod Idle
pub mod Levitation
mod Tests
