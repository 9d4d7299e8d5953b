-- ===== src/Heap.antt =====
-- The kernel heap, kernel/memory/heap.c: regions of nodes linked in order of address, first fit
-- with splitting, and merging on release.
pub mod Node
pub mod Blocks
pub mod Region
pub mod Calls
pub mod Examples
pub mod Tests
