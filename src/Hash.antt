-- ===== src/Hash.antt =====
-- Ordered property maps of crates/formlogic-core/src/object.rs: keys, and `HashObject`.
pub mod Key
pub mod Equal
pub mod IndexMap
pub mod Assoc
pub mod Object
pub mod Synced
pub mod Insert
pub mod Gap
pub mod Remove
pub mod Writes
pub mod Accessors
