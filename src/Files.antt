-- ===== src/Files.antt =====
-- crates/centralcore/src/files/mod.rs: safe relative paths, content hashes, file manifests.
pub mod Path
pub mod Hash
pub mod Manifest
mod Tests
