-- ===== src/UseCase/Delivery.antt =====
-- The contract that the four use cases of a consumed event share (README.md, "State machine"): what
-- a delivery does to the stored requests, the record of seen events and the outbox. The use cases
-- of src/application are proved to implement it, step by step, over the in-memory adapters.
pub mod Spec
pub mod Refines
pub mod Once
