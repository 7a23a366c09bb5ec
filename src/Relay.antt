-- ===== src/Relay.antt =====
-- The outbox relay: src/infrastructure/messaging/outbox-relay.ts and outbox-relay.scheduler.ts.
pub mod Drain
pub mod Delivered
pub mod Liveness
pub mod Gauges
pub mod Failures
pub mod Scheduler
pub mod Replicas
