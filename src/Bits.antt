-- ===== src/Bits.antt =====
-- The bit operations of machine words, as arithmetic on fields of any width.
mod Digit
pub mod Zero
pub mod Split
pub mod Single
pub use Digit.*
