-- ===== src/Trading/MarketData.antt =====
-- trading/market_data: the consumer of the market data, which recovers lost updates from a snapshot.
pub mod Consumer
pub mod Recovery
pub mod Stream
pub mod Sync
pub mod EndToEnd
mod Examples
