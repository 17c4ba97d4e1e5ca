-- ===== src/Common/TcpSocket.antt =====
-- common/tcp_socket.h and tcp_socket.cpp: the buffers of a connection.
pub mod Defs
pub mod Sending
pub mod Room
mod Examples
