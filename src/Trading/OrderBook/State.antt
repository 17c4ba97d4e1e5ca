-- ===== src/Trading/OrderBook/State.antt =====
-- trading/strategy/market_order.h and the fields of trading/strategy/market_order_book.h. The price levels
-- and orders are kept as in the exchange's book, whose tests on prices and whose index of a price are the
-- same code. `notified` holds the calls on the trade engine, in order.
use low_latency_trading_syst.Prelude.{ℕ, update, if◌then◌else◌, List, []}
use low_latency_trading_syst.Common.Types.{
  OrderId, order_id_invalid, TickerId, Price, price_invalid, Qty, qty_invalid, Priority,
  priority_invalid, Side, is_buy, me_max_order_ids, me_max_price_levels,
}
use low_latency_trading_syst.Common.MemPool.Defs.{Ptr, null, MemPool, deref, assign}
use low_latency_trading_syst.Common.MemPool.Defs
use low_latency_trading_syst.Exchange.Messages.{MeMarketUpdate}
use low_latency_trading_syst.Exchange.OrderBook.State.{price_to_index}

pub record MarketOrder : Type 0 where
  pub order_id : OrderId
  pub side : Side
  pub price : Price
  pub qty : Qty
  pub priority : Priority
  pub prev_order : Ptr
  pub next_order : Ptr

abbrev pub default_order : MarketOrder
default_order = record {
  order_id = order_id_invalid;
  side = Side.invalid;
  price = price_invalid;
  qty = qty_invalid;
  priority = priority_invalid;
  prev_order = null;
  next_order = null;
}

pub record MarketOrdersAtPrice : Type 0 where
  pub side : Side
  pub price : Price
  pub first_mkt_order : Ptr
  pub prev_entry : Ptr
  pub next_entry : Ptr

abbrev pub default_level : MarketOrdersAtPrice
default_level = record {
  side = Side.invalid;
  price = price_invalid;
  first_mkt_order = null;
  prev_entry = null;
  next_entry = null;
}

pub record Bbo : Type 0 where
  pub bid_price : Price
  pub ask_price : Price
  pub bid_qty : Qty
  pub ask_qty : Qty

abbrev pub default_bbo : Bbo
default_bbo = record {
  bid_price = price_invalid;
  ask_price = price_invalid;
  bid_qty = qty_invalid;
  ask_qty = qty_invalid;
}

-- A call of `onTradeUpdate`, and one of `onOrderBookUpdate`.
pub data Notice : Type 0 where
  trade : MeMarketUpdate → Notice
  book : TickerId → Price → Side → Notice

pub record MarketOrderBook : Type 0 where
  pub ticker_id : TickerId
  pub oid_to_order : OrderId → Ptr
  pub orders_at_price_pool : MemPool MarketOrdersAtPrice
  pub bids_by_price : Ptr
  pub asks_by_price : Ptr
  pub price_orders_at_price : ℕ → Ptr
  pub order_pool : MemPool MarketOrder
  pub bbo : Bbo
  pub notified : List Notice

-- The constructor.
unfoldable pub init : TickerId → MarketOrderBook
init ticker_id = record {
  ticker_id = ticker_id;
  oid_to_order = λ _. null;
  orders_at_price_pool = Defs.init default_level me_max_price_levels;
  bids_by_price = null;
  asks_by_price = null;
  price_orders_at_price = λ _. null;
  order_pool = Defs.init default_order me_max_order_ids;
  bbo = default_bbo;
  notified = [];
}

-- `*p` for an order and for a price level, and assignment to `*p`.
unfoldable pub order : MarketOrderBook → Ptr → MarketOrder
unfolding deref
order b p = deref b.order_pool p

unfoldable pub set_order : MarketOrderBook → Ptr → MarketOrder → MarketOrderBook
unfolding assign
set_order b p o = record b { order_pool = assign b.order_pool p o }

unfoldable pub level : MarketOrderBook → Ptr → MarketOrdersAtPrice
unfolding deref
level b p = deref b.orders_at_price_pool p

unfoldable pub set_level : MarketOrderBook → Ptr → MarketOrdersAtPrice → MarketOrderBook
unfolding assign
set_level b p l = record b { orders_at_price_pool = assign b.orders_at_price_pool p l }

-- `p->prev_order_ = q` and the like.
unfoldable pub set_prev_order : MarketOrderBook → Ptr → Ptr → MarketOrderBook
unfolding set_order order
set_prev_order b p q = set_order b p (record (order b p) { prev_order = q })

unfoldable pub set_next_order : MarketOrderBook → Ptr → Ptr → MarketOrderBook
unfolding set_order order
set_next_order b p q = set_order b p (record (order b p) { next_order = q })

unfoldable pub set_prev_entry : MarketOrderBook → Ptr → Ptr → MarketOrderBook
unfolding set_level level
set_prev_entry b p q = set_level b p (record (level b p) { prev_entry = q })

unfoldable pub set_next_entry : MarketOrderBook → Ptr → Ptr → MarketOrderBook
unfolding set_level level
set_next_entry b p q = set_level b p (record (level b p) { next_entry = q })

unfoldable pub set_first_order : MarketOrderBook → Ptr → Ptr → MarketOrderBook
unfolding set_level level
set_first_order b p q = set_level b p (record (level b p) { first_mkt_order = q })

-- `(side == Side::BUY ? bids_by_price_ : asks_by_price_)`, read and written.
unfoldable pub best : MarketOrderBook → Side → Ptr
best b side = if is_buy side then b.bids_by_price else b.asks_by_price

unfoldable pub set_best : MarketOrderBook → Side → Ptr → MarketOrderBook
set_best b side p =
    if is_buy side then record b { bids_by_price = p } else record b { asks_by_price = p }

-- `getOrdersAtPrice`
unfoldable pub get_orders_at_price : MarketOrderBook → Price → Ptr
unfolding price_to_index
get_orders_at_price b price = b.price_orders_at_price (price_to_index price)

-- `price_orders_at_price_.at(priceToIndex(price)) = p`
unfoldable pub set_orders_at_price : MarketOrderBook → Price → Ptr → MarketOrderBook
unfolding price_to_index
set_orders_at_price b price p = record b {
  price_orders_at_price = update b.price_orders_at_price (price_to_index price) p;
}
