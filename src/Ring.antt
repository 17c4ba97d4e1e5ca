-- ===== src/Ring.antt =====
-- Doubly linked rings, as the order books keep them for price levels and for the orders of a level.
-- `nx` and `pv` are what the next and the previous pointer of each node hold.
pub mod Chain
pub mod Change
pub mod Bound
