-- ===== src/Exchange/OrderBook/State.antt =====
-- exchange/matcher/me_order.h and the fields of exchange/matcher/me_order_book.h.
-- Orders and price levels live in the two memory pools, and are named by their addresses. Reading
-- through a null pointer is undefined in the source; the model then reads the cell at address 0,
-- which is no block of a pool. `sent` holds the calls on the parent matching engine, in order.
use low_latency_trading_syst.Prelude.{
  ℕ, ◌+◌, ◌-◌, ◌%◌, Bool, ◌&&◌, ◌||◌, update, pos_part, neg_part, ltb_ℤ, if◌then◌else◌, List, [],
  ◌∷◌, ◌++◌,
}
use low_latency_trading_syst.Common.Types.{
  OrderId, order_id_invalid, TickerId, ticker_id_invalid, ClientId, client_id_invalid, Price,
  price_invalid, Qty, qty_invalid, Priority, priority_invalid, Side, u64_mod, is_buy, is_sell,
  me_max_order_ids, me_max_price_levels,
}
use low_latency_trading_syst.Common.MemPool.Defs.{Ptr, null, MemPool, deref, assign}
use low_latency_trading_syst.Common.MemPool.Defs
use low_latency_trading_syst.Exchange.Messages.{MeClientResponse, MeMarketUpdate}

pub record MeOrder : Type 0 where
  pub ticker_id : TickerId
  pub client_id : ClientId
  pub client_order_id : OrderId
  pub market_order_id : OrderId
  pub side : Side
  pub price : Price
  pub qty : Qty
  pub priority : Priority
  pub prev_order : Ptr
  pub next_order : Ptr

abbrev pub default_order : MeOrder
default_order = record {
  ticker_id = ticker_id_invalid;
  client_id = client_id_invalid;
  client_order_id = order_id_invalid;
  market_order_id = order_id_invalid;
  side = Side.invalid;
  price = price_invalid;
  qty = qty_invalid;
  priority = priority_invalid;
  prev_order = null;
  next_order = null;
}

pub record MeOrdersAtPrice : Type 0 where
  pub side : Side
  pub price : Price
  pub first_me_order : Ptr
  pub prev_entry : Ptr
  pub next_entry : Ptr

abbrev pub default_level : MeOrdersAtPrice
default_level = record {
  side = Side.invalid;
  price = price_invalid;
  first_me_order = null;
  prev_entry = null;
  next_entry = null;
}

-- A call of `sendClientResponse` or of `sendMarketUpdate`.
pub data Message : Type 0 where
  response : MeClientResponse → Message
  market : MeMarketUpdate → Message

pub record MeOrderBook : Type 0 where
  pub ticker_id : TickerId
  pub cid_oid_to_order : ClientId → OrderId → Ptr
  pub orders_at_price_pool : MemPool MeOrdersAtPrice
  pub bids_by_price : Ptr
  pub asks_by_price : Ptr
  pub price_orders_at_price : ℕ → Ptr
  pub order_pool : MemPool MeOrder
  pub next_market_order_id : OrderId
  pub sent : List Message

-- The constructor. Outside the benchmark build it leaves `cid_oid_to_order_` as the memory was,
-- which is the second argument.
unfoldable pub init : TickerId → (ClientId → OrderId → Ptr) → MeOrderBook
init ticker_id memory = record {
  ticker_id = ticker_id;
  cid_oid_to_order = memory;
  orders_at_price_pool = Defs.init default_level me_max_price_levels;
  bids_by_price = null;
  asks_by_price = null;
  price_orders_at_price = λ _. null;
  order_pool = Defs.init default_order me_max_order_ids;
  next_market_order_id = 1;
  sent = [];
}

-- `matching_engine_->sendClientResponse(&r)` and `sendMarketUpdate(&u)`.
unfoldable pub send_response : MeOrderBook → MeClientResponse → MeOrderBook
send_response b r = record b { sent = b.sent ++ response r ∷ [] }

unfoldable pub send_update : MeOrderBook → MeMarketUpdate → MeOrderBook
send_update b u = record b { sent = b.sent ++ market u ∷ [] }

-- `*p` for an order and for a price level, and assignment to `*p`.
unfoldable pub order : MeOrderBook → Ptr → MeOrder
unfolding deref
order b p = deref b.order_pool p

unfoldable pub set_order : MeOrderBook → Ptr → MeOrder → MeOrderBook
unfolding assign
set_order b p o = record b { order_pool = assign b.order_pool p o }

unfoldable pub level : MeOrderBook → Ptr → MeOrdersAtPrice
unfolding deref
level b p = deref b.orders_at_price_pool p

unfoldable pub set_level : MeOrderBook → Ptr → MeOrdersAtPrice → MeOrderBook
unfolding assign
set_level b p l = record b { orders_at_price_pool = assign b.orders_at_price_pool p l }

-- `p->prev_order_ = q` and the like.
unfoldable pub set_prev_order : MeOrderBook → Ptr → Ptr → MeOrderBook
unfolding set_order order
set_prev_order b p q = set_order b p (record (order b p) { prev_order = q })

unfoldable pub set_next_order : MeOrderBook → Ptr → Ptr → MeOrderBook
unfolding set_order order
set_next_order b p q = set_order b p (record (order b p) { next_order = q })

unfoldable pub set_prev_entry : MeOrderBook → Ptr → Ptr → MeOrderBook
unfolding set_level level
set_prev_entry b p q = set_level b p (record (level b p) { prev_entry = q })

unfoldable pub set_next_entry : MeOrderBook → Ptr → Ptr → MeOrderBook
unfolding set_level level
set_next_entry b p q = set_level b p (record (level b p) { next_entry = q })

unfoldable pub set_first_order : MeOrderBook → Ptr → Ptr → MeOrderBook
unfolding set_level level
set_first_order b p q = set_level b p (record (level b p) { first_me_order = q })

-- `(side == Side::BUY ? bids_by_price_ : asks_by_price_)`, read and written.
unfoldable pub best : MeOrderBook → Side → Ptr
best b side = if is_buy side then b.bids_by_price else b.asks_by_price

unfoldable pub set_best : MeOrderBook → Side → Ptr → MeOrderBook
set_best b side p =
    if is_buy side then record b { bids_by_price = p } else record b { asks_by_price = p }

-- `priceToIndex`: the remainder is taken of the price converted to an unsigned 64-bit number.
unfoldable pub price_to_index : Price → ℕ
price_to_index price = (pos_part price + (u64_mod - neg_part price)) % u64_mod % me_max_price_levels

-- `getOrdersAtPrice`
unfoldable pub get_orders_at_price : MeOrderBook → Price → Ptr
unfolding price_to_index
get_orders_at_price b price = b.price_orders_at_price (price_to_index price)

-- `price_orders_at_price_.at(priceToIndex(price)) = p`
unfoldable pub set_orders_at_price : MeOrderBook → Price → Ptr → MeOrderBook
unfolding price_to_index
set_orders_at_price b price p = record b {
  price_orders_at_price = update b.price_orders_at_price (price_to_index price) p;
}

-- A level of price `p` goes behind one of price `q`.
unfoldable pub goes_after : Side → Price → Price → Bool
goes_after side p q = (is_sell side && ltb_ℤ q p) || (is_buy side && ltb_ℤ p q)

-- A level of price `p` becomes the best of its side, before one of price `q`.
unfoldable pub is_better : Side → Price → Price → Bool
is_better side p q = (is_buy side && ltb_ℤ q p) || (is_sell side && ltb_ℤ p q)
