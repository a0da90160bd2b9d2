-- ===== src/Imports.antt =====
-- Inlining of imports: crates/formlogic-core/src/imports.rs.
pub mod Line
pub mod Resolve
pub mod Finite
pub mod Total
pub mod Once
