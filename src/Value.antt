-- ===== src/Value.antt =====
-- NaN-boxed values: crates/formlogic-core/src/value.rs, the type `Value`. An `f64` is its 64-bit
-- pattern, since `to_bits` and `from_bits` are the identity on it.
pub mod Word
pub mod Tags
pub mod InlineStr
pub mod Float
pub mod Number
