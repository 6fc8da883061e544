-- ===== src/Memory.antt =====
-- src/memory: the allocators.
pub mod FixedPool
pub mod MemoryCheck
pub mod Helpers
pub mod Malloc
