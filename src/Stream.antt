-- ===== src/Stream.antt =====
-- The stream adapter (lewis/adapters/stream.py).
pub mod Values
pub mod Func
pub mod Commands
pub mod Handler
pub mod Server
mod Tests
