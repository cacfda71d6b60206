-- ===== src/Controller/Lifetime.antt =====
-- The lifetime of session records: what the heap and the map owe one another between two slots.
pub mod Heap
pub mod Rules
pub mod Sessions
pub mod Removal
pub mod Tick
pub mod Cleanup
pub mod Serve
