-- ===== src/Pmm.antt =====
-- The physical memory manager, kernel/memory/pmm.c: the firmware's memory map as a list of
-- regions, carved by `pmm_alloc` and given back by `pmm_free`.
pub mod Region
pub mod Examples
pub mod Counting
pub mod Maintain
pub mod Alloc
pub mod Free
pub mod RoundTrip
pub mod Init
mod Tests
