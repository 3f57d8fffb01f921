-- ===== src/Memory.antt =====
-- source/memory: pages, page tables, the mappings of an address space, and the slots of `mmap`.
pub mod Page
pub mod PageTable
pub mod Mmap
pub mod AddressSpace
