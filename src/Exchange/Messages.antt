-- ===== src/Exchange/Messages.antt =====
-- The messages of exchange/order_server/client_request.h, exchange/order_server/client_response.h
-- and exchange/market_data/market_update.h. An unset field holds the `INVALID` of its type.
use low_latency_trading_syst.Prelude.{ℕ, ◌+◌, List, [], ◌∷◌}
use low_latency_trading_syst.Common.Types.{
  OrderId, order_id_invalid, TickerId, ticker_id_invalid, ClientId, client_id_invalid, Price,
  price_invalid, Qty, qty_invalid, Priority, priority_invalid, Side,
}

pub data ClientRequestType : Type 0 where
  invalid new cancel : ClientRequestType

pub record MeClientRequest : Type 0 where
  pub type : ClientRequestType
  pub client_id : ClientId
  pub ticker_id : TickerId
  pub order_id : OrderId
  pub side : Side
  pub price : Price
  pub qty : Qty

pub record OmClientRequest : Type 0 where
  pub seq_num : ℕ
  pub me_client_request : MeClientRequest

pub data ClientResponseType : Type 0 where
  invalid accepted canceled filled cancel_rejected : ClientResponseType

pub record MeClientResponse : Type 0 where
  pub type : ClientResponseType
  pub client_id : ClientId
  pub ticker_id : TickerId
  pub client_order_id : OrderId
  pub market_order_id : OrderId
  pub side : Side
  pub price : Price
  pub exec_qty : Qty
  pub leaves_qty : Qty

pub record OmClientResponse : Type 0 where
  pub seq_num : ℕ
  pub me_client_response : MeClientResponse

pub data MarketUpdateType : Type 0 where
  invalid clear add modify cancel trade snapshot_start snapshot_end : MarketUpdateType

pub record MeMarketUpdate : Type 0 where
  pub type : MarketUpdateType
  pub order_id : OrderId
  pub ticker_id : TickerId
  pub side : Side
  pub price : Price
  pub qty : Qty
  pub priority : Priority

pub record MdpMarketUpdate : Type 0 where
  pub seq_num : ℕ
  pub me_market_update : MeMarketUpdate

-- The messages of a list of updates, numbered from `k` on.
abbrev pub messages : ℕ → List MeMarketUpdate → List MdpMarketUpdate
messages k [] = []
messages k (u ∷ us) = record { seq_num = k; me_market_update = u } ∷ messages (k + 1) us

-- The default member initialisers of `MEMarketUpdate`.
abbrev pub default_update : MeMarketUpdate
default_update = record {
  type = MarketUpdateType.invalid;
  order_id = order_id_invalid;
  ticker_id = ticker_id_invalid;
  side = Side.invalid;
  price = price_invalid;
  qty = qty_invalid;
  priority = priority_invalid;
}

-- The default member initialisers of `MeClientResponse`.
abbrev pub default_response : MeClientResponse
default_response = record {
  type = ClientResponseType.invalid;
  client_id = client_id_invalid;
  ticker_id = ticker_id_invalid;
  client_order_id = order_id_invalid;
  market_order_id = order_id_invalid;
  side = Side.invalid;
  price = price_invalid;
  exec_qty = qty_invalid;
  leaves_qty = qty_invalid;
}
