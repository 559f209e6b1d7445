-- ===== src/Minecraft.antt =====
-- crates/centralcore/src/minecraft: Mojang rules, launch arguments, libraries and native archives.
pub mod Rules
pub mod Arguments
pub mod Libraries
pub mod Natives
mod Tests
