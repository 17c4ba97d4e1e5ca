-- ===== src/Common.antt =====
-- The folder common/: the types that every part shares, the memory pool, the queue and
-- the multicast socket.
pub mod Types
pub mod MemPool
pub mod LfQueue
pub mod McastSocket
pub mod TcpSocket
