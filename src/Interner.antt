-- ===== src/Interner.antt =====
-- crates/formlogic-core/src/intern.rs.
pub mod Table
pub mod Symbols
