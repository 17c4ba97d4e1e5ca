-- ===== src/Trading/PositionKeeper.antt =====
-- trading/strategy/position_keeper.h: the positions of the client.
pub mod Defs
pub mod Filled
mod Examples
