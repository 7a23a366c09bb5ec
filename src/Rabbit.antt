-- ===== src/Rabbit.antt =====
-- The connection to the broker and what publishes through it: src/infrastructure/rabbitmq.
pub mod Connection
pub mod Topology
pub mod Publisher
pub mod Settings
