-- ===== src/Trading/OrderManager.antt =====
-- trading/strategy/order_manager.h and order_manager.cpp: one order for each side of an instrument.
pub mod Manager
pub mod Histories
mod Examples
