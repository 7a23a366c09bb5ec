-- ===== src/Interface.antt =====
-- The HTTP controllers of src/interface.
pub mod Http
pub mod Creation
pub mod Owned
pub mod Health
pub mod Checks
pub mod Misses
pub mod Writes
