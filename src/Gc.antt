-- ===== src/Gc.antt =====
-- Tracing of crates/formlogic-core/src/engine.rs: the roots, the marking, and `gc_collect`.
pub mod Object
pub mod Mark
pub mod Slots
pub mod Mentions
pub mod Closed
pub mod Within
pub mod Scan
pub mod Traced
pub mod Fuel
pub mod Collect
pub mod Roots
pub mod RootScan
pub mod Safe
