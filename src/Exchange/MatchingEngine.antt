-- ===== src/Exchange/MatchingEngine.antt =====
-- exchange/matcher/matching_engine.h and matching_engine.cpp: from requests to books, and from books
-- to the two outgoing queues.
pub mod Engine
pub mod Deliver
mod Examples
