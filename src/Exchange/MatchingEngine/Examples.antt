-- ===== src/Exchange/MatchingEngine/Examples.antt =====
-- Examples of the theorems on exchange/matcher/matching_engine.h.
use low_latency_trading_syst.Prelude.{◌≡◌, refl, ok, pos, [], ◌∷◌, arith}
use low_latency_trading_syst.Common.Types.{Side}
use low_latency_trading_syst.Common.LfQueue.Defs.{LfQueue}
use low_latency_trading_syst.Common.LfQueue.Bulk.{Gained}
use low_latency_trading_syst.Exchange.Messages.{
  ClientRequestType, MeClientRequest, default_update, default_response,
}
use low_latency_trading_syst.Exchange.OrderBook.State.{response, market, order}
use low_latency_trading_syst.Exchange.OrderBook.Shape.{IsBook}
use low_latency_trading_syst.Exchange.OrderBook.Remove.Book.{remove_from}
use low_latency_trading_syst.Exchange.OrderBook.Cancel.{cancel_messages}
use low_latency_trading_syst.Exchange.OrderBook.Examples.{one_ask, entries, one_ask-IsBook}
use low_latency_trading_syst.Exchange.MatchingEngine.Engine.{
  MatchingEngine, deliver, process_client_request,
}
use low_latency_trading_syst.Exchange.MatchingEngine.Deliver.{
  Delivered, responses, updates, deliver_lem, process_cancel,
}

abbrev queue_of : {A : Type 0} → A → LfQueue A
queue_of a = record {
  store = λ _. a;
  capacity = 8;
  next_write_index = 0;
  next_read_index = 0;
  num_elements = 0;
}

abbrev cancel_request : MeClientRequest
cancel_request = record {
  type = ClientRequestType.cancel;
  client_id = 1;
  ticker_id = 0;
  order_id = 7;
  side = Side.sell;
  price = pos 105;
  qty = 10;
}

abbrev engine : MatchingEngine
engine = record {
  ticker_order_book = λ _. one_ask;
  incoming_requests = queue_of cancel_request;
  outgoing_ogw_responses = queue_of default_response;
  outgoing_md_updates = queue_of default_update;
}

deliver_lem_example :
    Delivered engine
      (deliver engine (response default_response ∷ market default_update ∷ []))
      (response default_response ∷ market default_update ∷ [])
deliver_lem_example =
    deliver_lem engine (response default_response ∷ market default_update ∷ []) (ground arith)
      (ground arith) (omega arith) (omega arith)

process_cancel_example :
    (e' : MatchingEngine) × (process_client_request engine cancel_request ≡ ok e')
    × Gained engine.outgoing_ogw_responses e'.outgoing_ogw_responses
        (responses (cancel_messages 1 7 0 (order one_ask 1)))
    × Gained engine.outgoing_md_updates e'.outgoing_md_updates
        (updates (cancel_messages 1 7 0 (order one_ask 1)))
    × IsBook (e'.ticker_order_book 0) Side.sell (remove_from 1 entries) (remove_from 1 [])
process_cancel_example =
    process_cancel engine cancel_request Side.sell entries [] refl one_ask-IsBook refl (omega arith)
      (omega arith) (omega arith) (ground arith) (ground arith) (omega arith) (omega arith)
