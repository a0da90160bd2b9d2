-- ===== src/Collections.antt =====
-- The `Map` and `Set` built-ins of crates/formlogic-core/src/vm.rs, on `MapObject` and `SetObject` of
-- object.rs.
pub mod Store
pub mod Index
pub mod Split
pub mod Refine
pub mod Removal
