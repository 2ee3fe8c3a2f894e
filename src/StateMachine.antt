-- ===== src/StateMachine.antt =====
-- lewis/core/statemachine.py: the cycle-based state machine.
pub mod Defs
pub mod Config
pub mod Cycle
pub mod States
mod Tests
