-- ===== src/Common/LfQueue.antt =====
-- common/lf_queue.h: the queue between two threads. Its laws are in the child modules.
pub mod Defs
pub mod Fifo
pub mod Bulk
mod Examples
