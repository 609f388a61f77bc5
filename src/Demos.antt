-- ===== src/Demos.antt =====
-- The programs of examples.
pub mod Demo01
pub mod Demo02
pub mod Demo03
mod Examples
