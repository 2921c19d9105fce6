-- ===== src/Table.antt =====
-- ext/memory/profiler/table.h and table.c: the object table, an open-addressing hash table that
-- is keyed by object address, with linear probing and tombstones.
pub mod Layout
pub mod Probing
pub mod Operations
pub mod Gc
pub mod Slots
pub mod Walk
pub mod Slotting
pub mod Holds
pub mod Lookup
pub mod Delete
pub mod Room
pub mod Rebuild
pub mod Resize
pub mod Insert
pub mod Moves
pub mod Relocate
pub mod Compact
pub mod New
pub mod Bounds
pub mod Load
mod Tests
