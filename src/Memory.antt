-- ===== src/Memory.antt =====
-- The component KMEM, heaps of blocks of one size: src/tk_mem.c and include/tk_mem.h.
pub mod Heap
pub mod Count
pub mod Alloc
pub mod Create
mod Tests
