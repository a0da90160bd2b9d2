-- ===== src/Register.antt =====
-- The bytecode of the register machine: crates/formlogic-core/src/rcode.rs, with the reads of
-- rvm.rs and vm.rs and the jump patching of rcompiler.rs.
pub mod Op
pub mod Operands
pub mod Encode
pub mod Dispatch
pub mod Layout
pub mod Decode
pub mod Patch
