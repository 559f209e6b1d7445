-- ===== src/Providers/Components.antt =====
-- providers/components.rs: the user's selections, the dependency graph and its resolution.
pub mod Selection
pub mod Graph
pub mod Closure
pub mod Resolve
mod Tests
