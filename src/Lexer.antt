-- ===== src/Lexer.antt =====
-- crates/formlogic-core/src/lexer.rs.
pub mod Loop
pub mod Cursor
pub mod Forward
pub mod Blank
pub mod Comment
pub mod Progress
pub mod Digits
pub mod Strings
pub mod Delimited
pub mod Longest
pub mod Tokens
pub mod Stream
pub mod Whole
pub mod RoundTrip
pub mod Skip
pub mod Skipped
pub mod Word
pub mod Number
pub mod Escape
pub mod Quoted
pub mod Template
pub mod Regex
pub mod Operator
pub mod Next
