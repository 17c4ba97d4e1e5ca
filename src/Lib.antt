-- ===== src/Lib.antt =====
-- A low-latency trading system: an exchange (order server, matching engine, market data) and a trading
-- client, in C++. Clients send requests over TCP to the order server, which checks their sequence numbers
-- and hands them, in the order of their receive times, to the matching engine through a queue; the engine
-- dispatches them to an order book for each instrument, and puts the responses and the market updates on
-- two more queues. A publisher sends the updates as a numbered feed, a synthesizer sends snapshots of the
-- live orders, and the client's consumer makes of both one stream without a gap. This library models that
-- path, and the order manager, the risk check, the positions, the order book and the order gateway of the
-- client.
--
-- Parts, and the files that model them (paths from the repository's root):
--   common/types.h                       Common/Types: identifiers, limits, sides
--   common/mem_pool.h                    Common/MemPool: preallocated blocks with a circular search
--   common/lf_queue.h                    Common/LfQueue: the ring buffer between two threads
--   exchange/order_server/client_request.h, client_response.h, exchange/market_data/market_update.h
--                                        Exchange/Messages
--   trading/strategy/order_manager.h, order_manager.cpp, om_order.h
--                                        Trading/OrderManager/Manager (`moveOrders`, `onOrderUpdate`)
--   exchange/order_server/fifo_sequencer.h, order_server.h, order_server.cpp
--                                        Exchange/OrderServer: Sequencer (`addClientRequest`,
--                                        `sequenceAndPublish`), Server (`recvCallback`, `run`)
--   exchange/matcher/matching_engine.h, matching_engine.cpp
--                                        Exchange/MatchingEngine/Engine (`processClientRequest`, `run`)
--   common/mcast_socket.h, mcast_socket.cpp
--                                        Common/McastSocket (`send`, the sending of `sendAndRecv`)
--   common/tcp_socket.h, tcp_socket.cpp  Common/TcpSocket/Defs (`send`, `sendAndRecv`)
--   trading/order_gw/order_gateway.h, order_gateway.cpp
--                                        Trading/OrderGateway/Gateway (`run`, `recvCallback`)
--   trading/strategy/market_order.h, market_order_book.h, market_order_book.cpp
--                                        Trading/OrderBook: State (the fields), Levels, Orders (as in the
--                                        exchange's book), Update (`updateBBO`, `onMarketUpdate`)
--   exchange/market_data/snapshot_synthesizer.h, snapshot_synthesizer.cpp
--                                        Exchange/MarketData/Synthesizer (`addToSnapshot`,
--                                        `publishSnapshot`, `run`)
--   exchange/market_data/market_data_publisher.h, market_data_publisher.cpp
--                                        Exchange/MarketData/Publisher (`run`)
--   trading/market_data/market_data_consumer.h, market_data_consumer.cpp
--                                        Trading/MarketData/Consumer (`recvCallback`, `queueMessage`,
--                                        `checkSnapshotSync`)
--   trading/strategy/position_keeper.h   Trading/PositionKeeper/Defs (`addFill`, `updateBBO`)
--   trading/strategy/risk_manager.h      Trading/RiskManager (`checkPreTradeRisk`)
--   exchange/matcher/me_order.h, me_order_book.h, me_order_book.cpp
--                                        Exchange/OrderBook: State (the fields), Levels (`addOrdersAtPrice`,
--                                        `removeOrdersAtPrice`), Orders (`addOrder`, `removeOrder`),
--                                        Matching (`match`, `checkForMatch`, `add`, `cancel`)
-- Prelude holds the names that the others share, and Ring the lemmas on circular linked lists.
--
-- The book's orders and levels are linked nodes inside memory pools. The model keeps them so: a pool is
-- a function from addresses to blocks, a pointer is an address, and null is 0; every assignment through
-- a pointer is one update. Code that may end the process (`ASSERT`, `FATAL`, an exception out of a
-- `noexcept` function) returns a `Result`. A call of `sendClientResponse` or `sendMarketUpdate` is
-- appended to the book's field `sent`, which keeps the order of the calls of both.
-- Exchange/OrderBook/Shape says what a well-formed book looks like in memory, and Exchange/OrderBook/Spec
-- what matching promises, over plain lists.
--
-- Trading/OrderBook/Embed reads the client's book as a book of the exchange, which carries the theorems over.
-- What the kernel answers to the calls of a socket is a list of answers, in their order. How messages lie in
-- memory is a parameter; where both ends of a connection meet, one reads back what the other writes.
--
-- Where the source leaves the outcome undefined: an array that is read at a client's id out of range ends
-- the process in the model, so no theorem speaks of it; a sum or a product of signed numbers that overflows
-- wraps, and the theorems on positions give the range in which none does. The id of a new order is cut to 32
-- bits where the source does it, in `checkForMatch`.
--
-- Bounds and fuel: the search for a free block gets a round for each block and one, since it stops where
-- it began. The loops of `checkForMatch` and of `addOrdersAtPrice` get a round for each block of their
-- pool and one; the live orders of a well-formed book are distinct blocks of the pool, and each round
-- but the last removes one. A loop that empties a queue gets a round for each of its elements. The loops
-- over all instruments and all order ids are given these two sizes. Unsigned counters wrap where the
-- source's do.
--
-- Not modelled: the client's features and strategies; the text forms of the messages, logging and time
-- measurement, the set-up of sockets, and threads, and the benchmark programs with their own variant of the order
-- book. A queue is taken one call at a time.
mod Prelude
pub mod Ring
pub mod Common
pub mod Exchange
pub mod Trading
