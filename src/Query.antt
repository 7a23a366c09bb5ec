-- ===== src/Query.antt =====
-- The owner-scoped reads of src/application.
pub mod Reads
pub mod Owner
pub mod Order
pub mod Units
pub mod Sorting
pub mod Unique
pub mod Pages
