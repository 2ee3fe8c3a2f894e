-- ===== src/Core.antt =====
-- Parts of lewis/core that devices and the simulation share.
pub mod Number
pub mod Digits
pub mod Integers
pub mod Approaches
pub mod Limits
pub mod Processor
pub mod Simulation
mod Tests
