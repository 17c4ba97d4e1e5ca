-- ===== src/Exchange.antt =====
-- The folder exchange/.
pub mod Messages
pub mod OrderBook
pub mod MatchingEngine
pub mod OrderServer
pub mod MarketData
