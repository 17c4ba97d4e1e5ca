-- ===== src/Trading.antt =====
-- The folder trading/.
pub mod RiskManager
pub mod OrderManager
pub mod MarketData
pub mod OrderGateway
pub mod OrderBook
pub mod PositionKeeper
mod Examples
