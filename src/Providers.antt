-- ===== src/Providers.antt =====
-- crates/centralcore/src/providers: instance providers, their manifests, components and updates.
pub mod Ids
pub mod Model
pub mod Components
pub mod Rollback
pub mod Update
pub mod Storage
pub mod Network
pub mod Verification
pub mod Registry
pub mod Resources
pub mod Manifest
