-- ===== src/UseCase.antt =====
-- src/application: the use cases that the consumed events and the HTTP route call, and the proofs
-- about them.
pub mod Routes
pub mod Create
pub mod Accept
pub mod Start
pub mod Complete
pub mod Fail
pub mod Delivery
