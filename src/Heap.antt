-- ===== src/Heap.antt =====
-- The object heap: `Heap` and the conversions of crates/formlogic-core/src/value.rs, and the sweep
-- of crates/formlogic-core/src/engine.rs.
pub mod Store
pub mod Alloc
pub mod Sweep
pub mod Collect
pub mod FreeList
pub mod Slots
pub mod Safety
pub mod Convert
pub mod RoundTrip
