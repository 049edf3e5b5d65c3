-- ===== src/Examples.antt =====
-- Concrete inputs: a command line, an environment and memories at which the theorems are applied.
pub mod Setup
pub mod Measurements
pub mod Programs
pub mod Memories
pub mod Loading
