-- ===== src/Trading/OrderBook/Embed.antt =====
-- The client's book as a book of the exchange: trading/strategy/market_order_book.h and
-- exchange/matcher/me_order_book.h on the same memory. An order of the feed has no client, and is put under
-- client 0 with its own id.
use low_latency_trading_syst.Prelude.{◌≡◌, refl, ap, ◌==◌, if◌then◌else◌, Bool-cases, inl, inr, []}
use low_latency_trading_syst.Common.Types.{Price, Side, is_buy}
use low_latency_trading_syst.Common.MemPool.Defs.{Ptr, null, deref}
use low_latency_trading_syst.Common.MemPool.Map.{map_pool, assign-map_pool}
use low_latency_trading_syst.Exchange.OrderBook.State.{
  MeOrder, MeOrdersAtPrice, MeOrderBook, price_to_index,
}
use low_latency_trading_syst.Exchange.OrderBook.State as Me
use low_latency_trading_syst.Trading.OrderBook.State.{
  MarketOrder, MarketOrdersAtPrice, MarketOrderBook,
}
use low_latency_trading_syst.Trading.OrderBook.State as Market

-- Orders, levels and books.
abbrev pub embed_order : MarketOrder → MeOrder
embed_order o = record {
  ticker_id = 0;
  client_id = 0;
  client_order_id = o.order_id;
  market_order_id = o.order_id;
  side = o.side;
  price = o.price;
  qty = o.qty;
  priority = o.priority;
  prev_order = o.prev_order;
  next_order = o.next_order;
}

abbrev pub embed_level : MarketOrdersAtPrice → MeOrdersAtPrice
embed_level l = record {
  side = l.side;
  price = l.price;
  first_me_order = l.first_mkt_order;
  prev_entry = l.prev_entry;
  next_entry = l.next_entry;
}

unfoldable pub embed : MarketOrderBook → MeOrderBook
embed b = record {
  ticker_id = b.ticker_id;
  cid_oid_to_order = λ c. if c == 0 then b.oid_to_order else λ _. null;
  orders_at_price_pool = map_pool embed_level b.orders_at_price_pool;
  bids_by_price = b.bids_by_price;
  asks_by_price = b.asks_by_price;
  price_orders_at_price = b.price_orders_at_price;
  order_pool = map_pool embed_order b.order_pool;
  next_market_order_id = 1;
  sent = [];
}

pub order-embed :
    (b : MarketOrderBook) (p : Ptr) → Me.order (embed b) p ≡ embed_order (Market.order b p)
unfolding embed Me.order Market.order deref
order-embed b p = refl

pub level-embed :
    (b : MarketOrderBook) (p : Ptr) → Me.level (embed b) p ≡ embed_level (Market.level b p)
unfolding embed Me.level Market.level deref
level-embed b p = refl

module _ (b : MarketOrderBook) (p q : Ptr) where
  set_order-embed :
      (o : MarketOrder) → Me.set_order (embed b) p (embed_order o) ≡ embed (Market.set_order b p o)
  unfolding embed Me.set_order Market.set_order
  set_order-embed o =
      ap (λ pool. record (embed b) { order_pool = pool })
        (assign-map_pool embed_order b.order_pool p o)

  set_level-embed :
      (l : MarketOrdersAtPrice)
      → Me.set_level (embed b) p (embed_level l) ≡ embed (Market.set_level b p l)
  unfolding embed Me.set_level Market.set_level
  set_level-embed l =
      ap (λ pool. record (embed b) { orders_at_price_pool = pool })
        (assign-map_pool embed_level b.orders_at_price_pool p l)

  pub set_prev_order-embed : Me.set_prev_order (embed b) p q ≡ embed (Market.set_prev_order b p q)
  unfolding embed Me.set_prev_order Market.set_prev_order Me.order Market.order deref
  set_prev_order-embed = set_order-embed (record (Market.order b p) { prev_order = q })

  pub set_next_order-embed : Me.set_next_order (embed b) p q ≡ embed (Market.set_next_order b p q)
  unfolding embed Me.set_next_order Market.set_next_order Me.order Market.order deref
  set_next_order-embed = set_order-embed (record (Market.order b p) { next_order = q })

  pub set_prev_entry-embed : Me.set_prev_entry (embed b) p q ≡ embed (Market.set_prev_entry b p q)
  unfolding embed Me.set_prev_entry Market.set_prev_entry Me.level Market.level deref
  set_prev_entry-embed = set_level-embed (record (Market.level b p) { prev_entry = q })

  pub set_next_entry-embed : Me.set_next_entry (embed b) p q ≡ embed (Market.set_next_entry b p q)
  unfolding embed Me.set_next_entry Market.set_next_entry Me.level Market.level deref
  set_next_entry-embed = set_level-embed (record (Market.level b p) { next_entry = q })

  pub set_first_order-embed :
      Me.set_first_order (embed b) p q ≡ embed (Market.set_first_order b p q)
  unfolding embed Me.set_first_order Market.set_first_order Me.level Market.level deref
  set_first_order-embed = set_level-embed (record (Market.level b p) { first_mkt_order = q })

module _ (b : MarketOrderBook) where
  pub best-embed : (side : Side) → Me.best (embed b) side ≡ Market.best b side
  unfolding embed Me.best Market.best
  best-embed side = refl

  pub set_best-embed :
      (side : Side) (p : Ptr) → Me.set_best (embed b) side p ≡ embed (Market.set_best b side p)
  unfolding embed Me.set_best Market.set_best
  set_best-embed side p = elim (Bool-cases (is_buy side)) [
    | inl buys ↦ rw buys refl
    | inr sells ↦ rw sells refl
  ]

  pub get_orders_at_price-embed :
      (price : Price) → Me.get_orders_at_price (embed b) price ≡ Market.get_orders_at_price b price
  unfolding embed Me.get_orders_at_price Market.get_orders_at_price
  get_orders_at_price-embed price = refl

  pub set_orders_at_price-embed :
      (price : Price) (p : Ptr)
      → Me.set_orders_at_price (embed b) price p ≡ embed (Market.set_orders_at_price b price p)
  unfolding embed Me.set_orders_at_price Market.set_orders_at_price
  set_orders_at_price-embed price p = refl
