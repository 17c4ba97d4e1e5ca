-- ===== src/Exchange/OrderBook.antt =====
-- exchange/matcher: the limit order book of one instrument. The state and the operations are in
-- `State`, `Levels`, `Orders` and `Matching`; what is proved of them stands beside.
pub mod State
pub mod Levels
pub mod Orders
pub mod Matching
pub mod Shape
pub mod Frame
pub mod Unlink
pub mod RemoveOne
pub mod RemoveLevel
pub mod Sides
pub mod Remove
pub mod SameShape
pub mod Spec
pub mod MatchStep
pub mod Sweep
pub mod Matched
pub mod Either
pub mod Cancel
pub mod Examples
