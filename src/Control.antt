-- ===== src/Control.antt =====
-- The control server and its client (lewis/core/control_server.py and control_client.py).
pub mod Names
pub mod Server
pub mod Client
mod Tests
