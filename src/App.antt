-- ===== src/App.antt =====
-- src/app.module.ts: how the service is put together.
pub mod Shared
pub mod Parts
pub mod Wiring
