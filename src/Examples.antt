-- ===== src/Examples.antt =====
-- Concrete runs of the model: tests, and the theorems at inputs that meet their hypotheses.
mod Data
mod Lifecycle
mod Service
mod Messages
mod Reads
mod Tables
mod Broker
mod Outbox
mod Deliveries
mod Running
