-- ===== src/Consumer.antt =====
-- src/infrastructure/rabbitmq and src/infrastructure/messaging/with-correlation.ts: from a consumed
-- message to the use case, and back to the broker.
pub mod Payload
pub mod Parse
pub mod Settle
pub mod Consume
pub mod Contract
pub mod Reading
pub mod Outcomes
pub mod Safety
