-- ===== src/Devices.antt =====
-- Device types, setups and interfaces of a device module (lewis/core/devices.py).
pub mod Builder
pub mod Setups
pub mod Machine
mod Tests
