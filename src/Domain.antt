-- ===== src/Domain.antt =====
-- src/domain: the aggregate, its lifecycle functions, and what is proved of them.
pub mod Request
pub mod Transitions
pub mod Invariant
pub mod Machine
pub mod History
pub mod Allowed
