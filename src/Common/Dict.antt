-- ===== src/Common/Dict.antt =====
-- A Python `dict`: its operations, and what a lookup sees after each.
mod Defs
mod Laws
pub use Defs.*
pub use Laws.*
