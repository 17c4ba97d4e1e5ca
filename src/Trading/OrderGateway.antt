-- ===== src/Trading/OrderGateway.antt =====
-- trading/order_gw: the connection of a client to the exchange's order server.
pub mod Gateway
pub mod Requests
pub mod Responses
pub mod EndToEnd
mod Examples
