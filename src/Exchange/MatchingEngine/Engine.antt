-- ===== src/Exchange/MatchingEngine/Engine.antt =====
-- exchange/matcher/matching_engine.h. The book of a ticker id that is too large is undefined in the
-- source; the model's map is total. A book's calls on the engine are in its `sent`, and go to the
-- queues in their order.
use low_latency_trading_syst.Prelude.{update, List, [], ◌∷◌, Result, ok, fatal, ◌>>=◌, none, some}
use low_latency_trading_syst.Common.Types.{TickerId, ClientId, OrderId}
use low_latency_trading_syst.Common.MemPool.Defs.{Ptr}
use low_latency_trading_syst.Common.LfQueue.Defs.{
  LfQueue, push, get_next_to_read, update_read_index,
}
use low_latency_trading_syst.Exchange.Messages.{
  ClientRequestType, MeClientRequest, MeClientResponse, MeMarketUpdate,
}
use low_latency_trading_syst.Exchange.OrderBook.State.{MeOrderBook, Message, response, market}
use low_latency_trading_syst.Exchange.OrderBook.State
use low_latency_trading_syst.Exchange.OrderBook.Matching.{add, cancel}

pub record MatchingEngine : Type 0 where
  pub ticker_order_book : TickerId → MeOrderBook
  pub incoming_requests : LfQueue MeClientRequest
  pub outgoing_ogw_responses : LfQueue MeClientResponse
  pub outgoing_md_updates : LfQueue MeMarketUpdate

-- The constructor.
unfoldable pub init :
    (TickerId → ClientId → OrderId → Ptr)
    → LfQueue MeClientRequest
    → LfQueue MeClientResponse
    → LfQueue MeMarketUpdate
    → MatchingEngine
init memory client_requests client_responses market_updates = record {
  ticker_order_book = λ i. State.init i (memory i);
  incoming_requests = client_requests;
  outgoing_ogw_responses = client_responses;
  outgoing_md_updates = market_updates;
}

-- `sendClientResponse`
unfoldable pub send_client_response : MatchingEngine → MeClientResponse → MatchingEngine
send_client_response e r = record e { outgoing_ogw_responses = push e.outgoing_ogw_responses r }

-- `sendMarketUpdate`
unfoldable pub send_market_update : MatchingEngine → MeMarketUpdate → MatchingEngine
send_market_update e u = record e { outgoing_md_updates = push e.outgoing_md_updates u }

unfoldable pub deliver : MatchingEngine → List Message → MatchingEngine
deliver e [] = e
deliver e (response r ∷ ms) = deliver (send_client_response e r) ms
deliver e (market u ∷ ms) = deliver (send_market_update e u) ms

-- The book after an operation, with its calls made.
unfoldable pub put_book : MatchingEngine → TickerId → MeOrderBook → MatchingEngine
put_book e ticker_id b =
    deliver
      (record e {
        ticker_order_book = update e.ticker_order_book ticker_id (record b { sent = [] });
      })
      b.sent

-- `processClientRequest`
unfoldable pub process_client_request : MatchingEngine → MeClientRequest → Result MatchingEngine
process_client_request e r =
    let order_book = e.ticker_order_book r.ticker_id in
    elim r.type [
      | ClientRequestType.new ↦ do
        b ← add order_book r.client_id r.order_id r.ticker_id r.side r.price r.qty
        ok (put_book e r.ticker_id b)
      | ClientRequestType.cancel ↦ do
        b ← cancel order_book r.client_id r.order_id r.ticker_id
        ok (put_book e r.ticker_id b)
      | ClientRequestType.invalid ↦ fatal
    ]

-- A round of `run`.
unfoldable pub run_round : MatchingEngine → Result MatchingEngine
run_round e = elim (get_next_to_read e.incoming_requests) [
  | none ↦ ok e
  | some r ↦ do
    e' ← process_client_request e r
    q ← update_read_index e'.incoming_requests
    ok (record e' { incoming_requests = q })
]
