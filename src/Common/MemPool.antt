-- ===== src/Common/MemPool.antt =====
-- common/mem_pool.h: a pool of preallocated blocks. Its laws are in the child modules.
pub mod Defs
pub mod Laws
pub mod Map
mod Examples
