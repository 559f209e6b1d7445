-- ===== src/Platform.antt =====
-- crates/centralcore/src/platform/mod.rs: the host. The detection of the host is a compile-time
-- choice and is not modelled.
pub data OperatingSystem : Type 0 where
  windows linux mac_os other_os : OperatingSystem

pub data Architecture : Type 0 where
  x86 x86_64 aarch64 arm other_architecture : Architecture

pub record Platform : Type 0 where
  pub os : OperatingSystem
  pub architecture : Architecture
