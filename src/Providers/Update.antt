-- ===== src/Providers/Update.antt =====
-- providers/service.rs and providers/update.rs: what an update changes, and how it is applied.
pub mod Tree
pub mod Transaction
pub mod Recovery
pub mod Desired
pub mod Plan
pub mod Apply
mod Tests
