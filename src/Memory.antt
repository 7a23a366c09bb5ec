-- ===== src/Memory.antt =====
-- src/infrastructure/in-memory-processing-request.repository.ts and
-- src/infrastructure/in-memory-unit-of-work.ts: the adapters that hold everything in memory.
pub mod Store
pub mod Recorded
