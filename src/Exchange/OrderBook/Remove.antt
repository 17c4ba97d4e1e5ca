-- ===== src/Exchange/OrderBook/Remove.antt =====
-- `removeOrder` of exchange/matcher/me_order_book.h on a well-formed book.
pub mod Level
pub mod Order
pub mod Book
