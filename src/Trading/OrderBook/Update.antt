-- ===== src/Trading/OrderBook/Update.antt =====
-- trading/strategy/market_order_book.h and market_order_book.cpp: the best prices, and `onMarketUpdate`. The
-- loop over all order ids is given their number; the others get a round for each block of their pool and
-- one.
use low_latency_trading_syst.Prelude.{
  ℕ, zero, suc, ◌+◌, ◌%◌, Bool, true, false, not, ◌&&◌, ◌||◌, ◌==◌, ltb, ltb_ℤ, if◌then◌else◌, [],
  ◌∷◌, ◌++◌, Result, ok, out_of_fuel, ◌>>=◌, ◌>>◌, assert,
}
use low_latency_trading_syst.Common.Types.{
  OrderId, Price, price_invalid, Qty, qty_invalid, is_buy, is_sell, u32_mod, me_max_order_ids,
}
use low_latency_trading_syst.Common.MemPool.Defs.{Ptr, null, MemPool, deref, allocate, deallocate}
use low_latency_trading_syst.Exchange.Messages.{MarketUpdateType, MeMarketUpdate}
use low_latency_trading_syst.Trading.OrderBook.State.{
  MarketOrder, MarketOrdersAtPrice, Notice, MarketOrderBook, order, level, set_order,
}
use low_latency_trading_syst.Trading.OrderBook.Orders.{add_order, remove_order}

-- The two loops of `updateBBO`: the quantity so far, and the orders of a level from `itr` round to the first.
unfoldable pub add_qty : MarketOrderBook → ℕ → Ptr → Ptr → Qty → Result Qty
add_qty b zero first itr qty = out_of_fuel
add_qty b (suc n) first itr qty = elim (itr == first) [
  | true ↦ ok qty
  | false ↦ add_qty b n first (order b itr).next_order ((qty + (order b itr).qty) % u32_mod)
]

unfoldable pub level_qty : MarketOrderBook → Ptr → Result Qty
unfolding order level
level_qty b p =
    let first = (level b p).first_mkt_order in
    add_qty b (b.order_pool.size + 1) first (order b first).next_order (order b first).qty

-- Price and quantity of the best level of a side.
unfoldable pub best_of : MarketOrderBook → Ptr → Result (Price × Qty)
unfolding level
best_of b p =
    if p == null
    then ok (price_invalid, qty_invalid)
    else do qty ← level_qty b p; ok ((level b p).price, qty)

unfoldable pub update_bid : MarketOrderBook → Result MarketOrderBook
update_bid b = do
  (price, qty) ← best_of b b.bids_by_price
  ok (record b { bbo = record b.bbo { bid_price = price; bid_qty = qty } })

unfoldable pub update_ask : MarketOrderBook → Result MarketOrderBook
update_ask b = do
  (price, qty) ← best_of b b.asks_by_price
  ok (record b { bbo = record b.bbo { ask_price = price; ask_qty = qty } })

-- `updateBBO`
unfoldable pub update_bbo : MarketOrderBook → Bool → Bool → Result MarketOrderBook
update_bbo b bid ask = do
  b' ← if bid then update_bid b else ok b
  if ask then update_ask b' else ok b'

-- The first loop of CLEAR, with `n` order ids left.
unfoldable pub free_orders :
    (OrderId → Ptr) → ℕ → OrderId → MemPool MarketOrder → Result (MemPool MarketOrder)
free_orders oid_to_order zero o pool = ok pool
free_orders oid_to_order (suc n) o pool = do
  pool' ← if oid_to_order o == null then ok pool else deallocate pool (oid_to_order o)
  free_orders oid_to_order n (o + 1) pool'

-- The loop of CLEAR over the levels of a side that are behind the best.
unfoldable pub free_rest :
    ℕ → Ptr → Ptr → MemPool MarketOrdersAtPrice → Result (MemPool MarketOrdersAtPrice)
free_rest zero top itr pool = out_of_fuel
free_rest (suc n) top itr pool = elim (itr == top) [
  | true ↦ ok pool
  | false ↦ do pool' ← deallocate pool itr; free_rest n top (deref pool' itr).next_entry pool'
]

unfoldable pub free_levels :
    Ptr → MemPool MarketOrdersAtPrice → Result (MemPool MarketOrdersAtPrice)
unfolding deref
free_levels top pool = if top == null then ok pool else do
  pool' ← free_rest (pool.size + 1) top (deref pool top).next_entry pool
  deallocate pool' top

-- CLEAR
unfoldable pub clear : ℕ → MarketOrderBook → Result MarketOrderBook
clear ids b = do
  orders ← free_orders b.oid_to_order ids 0 b.order_pool
  levels ← free_levels b.bids_by_price b.orders_at_price_pool
  levels' ← free_levels b.asks_by_price levels
  ok (record b {
    oid_to_order = λ _. null;
    order_pool = orders;
    orders_at_price_pool = levels';
    bids_by_price = null;
    asks_by_price = null;
  })

-- ADD
unfoldable pub on_add : MarketOrderBook → MeMarketUpdate → Result MarketOrderBook
on_add b u = do
  (p, pool) ← allocate b.order_pool (record {
    order_id = u.order_id;
    side = u.side;
    price = u.price;
    qty = u.qty;
    priority = u.priority;
    prev_order = null;
    next_order = null;
  })
  add_order (record b { order_pool = pool }) p

-- MODIFY
unfoldable pub on_modify : MarketOrderBook → MeMarketUpdate → Result MarketOrderBook
unfolding order set_order
on_modify b u = do
  assert (ltb u.order_id me_max_order_ids)
  let p = b.oid_to_order u.order_id
  ok (set_order b p (record (order b p) { qty = u.qty }))

-- CANCEL
unfoldable pub on_cancel : MarketOrderBook → MeMarketUpdate → Result MarketOrderBook
on_cancel b u = do
  assert (ltb u.order_id me_max_order_ids)
  remove_order b (b.oid_to_order u.order_id)

-- The switch of `onMarketUpdate`, but for TRADE.
unfoldable pub apply_update : ℕ → MarketOrderBook → MeMarketUpdate → Result MarketOrderBook
apply_update ids b u = elim u.type [
  | MarketUpdateType.add ↦ on_add b u
  | MarketUpdateType.modify ↦ on_modify b u
  | MarketUpdateType.cancel ↦ on_cancel b u
  | MarketUpdateType.clear ↦ clear ids b
  | MarketUpdateType.trade ↦ ok b
  | MarketUpdateType.invalid ↦ ok b
  | MarketUpdateType.snapshot_start ↦ ok b
  | MarketUpdateType.snapshot_end ↦ ok b
]

unfoldable pub bid_updated : MarketOrderBook → MeMarketUpdate → Bool
unfolding level
bid_updated b u =
    is_buy u.side
    && ((b.bids_by_price == null) || not (ltb_ℤ u.price (level b b.bids_by_price).price))

unfoldable pub ask_updated : MarketOrderBook → MeMarketUpdate → Bool
unfolding level
ask_updated b u =
    is_sell u.side
    && ((b.asks_by_price == null) || not (ltb_ℤ (level b b.asks_by_price).price u.price))

abbrev pub is_trade : MarketUpdateType → Bool
is_trade MarketUpdateType.trade = true
is_trade _ = false

-- `onMarketUpdate`. Which sides are updated is decided on the book as it was.
unfoldable pub on_market_update : ℕ → MarketOrderBook → MeMarketUpdate → Result MarketOrderBook
on_market_update ids b u =
    if is_trade u.type then ok (record b { notified = b.notified ++ Notice.trade u ∷ [] }) else do
      b1 ← apply_update ids b u
      b2 ← update_bbo b1 (bid_updated b u) (ask_updated b u)
      ok (record b2 { notified = b2.notified ++ Notice.book u.ticker_id u.price u.side ∷ [] })
