-- ===== src/Persistence.antt =====
-- The adapters over PostgreSQL: src/infrastructure/persistence.
pub mod Manager
pub mod TypeOrm
pub mod Columns
pub mod Database
pub mod Lists
pub mod View
pub mod Ordering
pub mod Refines
pub mod Writes
pub mod Save
pub mod Events
pub mod Agreement
pub mod Delivery
pub mod Storable
pub mod Creation
pub mod Runs
