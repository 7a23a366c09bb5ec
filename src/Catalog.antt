-- ===== src/Catalog.antt =====
-- The service as a whole: what holds between the stored requests, the record of seen events and
-- the outbox, in every state that creations and deliveries reach (src/application).
pub mod Counts
pub mod Consistent
pub mod Unique
pub mod Keeps
pub mod Deliver
pub mod Create
pub mod Run
pub mod Replay
pub mod Routed
