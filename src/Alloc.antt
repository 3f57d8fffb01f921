-- ===== src/Alloc.antt =====
-- source/alloc: the allocators.
pub mod Pool
pub mod Buddy
pub mod Heap
