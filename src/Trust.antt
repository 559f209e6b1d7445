-- ===== src/Trust.antt =====
-- crates/centralcore/src/trust/mod.rs: trusted keys, detached signatures, key transitions.
pub mod Keys
pub mod Store
pub mod Verifier
mod Tests
