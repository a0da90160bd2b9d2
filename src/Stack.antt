-- ===== src/Stack.antt =====
-- The bytecode of the stack machine: crates/formlogic-core/src/code.rs.
pub mod Op
pub mod Table
pub mod Decode
pub mod Make
