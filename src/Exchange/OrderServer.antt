-- ===== src/Exchange/OrderServer.antt =====
-- exchange/order_server: the sequencer of incoming requests and the server of the clients'
-- connections.
pub mod Sequencer
pub mod Publish
pub mod Server
pub mod Receive
pub mod Send
mod Examples
