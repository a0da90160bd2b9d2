-- ===== src/Token.antt =====
-- crates/formlogic-core/src/token.rs.
pub mod Text
pub mod Kind
pub mod Keywords
pub mod Operators
pub mod Literal
