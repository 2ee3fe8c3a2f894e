-- ===== src/Modbus.antt =====
-- lewis/adapters/modbus.py: the Modbus TCP protocol, without its sockets.
pub mod Bank
pub mod Frame
pub mod Bits
pub mod Handlers
pub mod Protocol
mod Tests
