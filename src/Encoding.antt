-- ===== src/Encoding.antt =====
-- Operand fields of an instruction: the loop that `make` (crates/formlogic-core/src/code.rs) and
-- `rmake` (crates/formlogic-core/src/rcode.rs) share, big-endian, over a zeroed vector.
pub mod Fields
pub mod Reads
