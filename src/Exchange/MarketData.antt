-- ===== src/Exchange/MarketData.antt =====
-- exchange/market_data: the publisher of the incremental feed and the synthesizer of its snapshots.
pub mod Synthesizer
pub mod Publisher
pub mod Live
pub mod Follow
pub mod Cycle
pub mod Replay
pub mod Incremental
pub mod Taken
pub mod Examples
