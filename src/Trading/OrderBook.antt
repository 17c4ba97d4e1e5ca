-- ===== src/Trading/OrderBook.antt =====
-- trading/strategy/market_order_book.h and market_order_book.cpp: the client's book of an instrument.
pub mod State
pub mod Levels
pub mod Orders
pub mod Update
pub mod Embed
pub mod Same
pub mod SameRun
pub mod SameAdd
pub mod Untouched
pub mod Best
mod Examples
