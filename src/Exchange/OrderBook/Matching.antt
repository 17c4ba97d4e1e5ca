-- ===== src/Exchange/OrderBook/Matching.antt =====
-- exchange/matcher/me_order_book.cpp: matching, `add` and `cancel`.
use low_latency_trading_syst.Prelude.{
  ℕ, zero, suc, ◌+◌, ◌-◌, ◌%◌, min, Bool, true, false, ◌||◌, ltb, ltb_ℤ, ◌==◌, if◌then◌else◌,
  Result, ok, out_of_fuel, ◌>>=◌, ◌>>◌, assert,
}
use low_latency_trading_syst.Common.Types.{
  OrderId, order_id_invalid, TickerId, ClientId, Price, price_invalid, Qty, qty_invalid,
  priority_invalid, Side, u32_mod, u64_mod, is_buy, is_sell, me_max_num_clients, me_max_order_ids,
}
use low_latency_trading_syst.Common.MemPool.Defs.{Ptr, null, allocate}
use low_latency_trading_syst.Exchange.Messages.{ClientResponseType, MarketUpdateType}
use low_latency_trading_syst.Exchange.OrderBook.State.{
  MeOrderBook, order, level, set_order, send_response, send_update,
}
use low_latency_trading_syst.Exchange.OrderBook.Orders.{get_next_priority, remove_order, add_order}

-- `generateNewMarketOrderId`
unfoldable pub generate_new_market_order_id : MeOrderBook → OrderId × MeOrderBook
generate_new_market_order_id b = (
  b.next_market_order_id,
  record b { next_market_order_id = (b.next_market_order_id + 1) % u64_mod },
)

-- The aggressive order: the parameters that `add` and `match` have in common. Its id is an `OrderId` in
-- both; `checkForMatch`, between them, narrows it.
pub record Aggressor : Type 0 where
  pub client_id : ClientId
  pub client_order_id : OrderId
  pub ticker_id : TickerId
  pub side : Side
  pub price : Price
  pub market_order_id : OrderId

-- The three messages of every match: a fill to each client, and the trade.
unfoldable pub send_fills : MeOrderBook → Aggressor → Ptr → Qty → Qty → MeOrderBook
unfolding order send_response send_update
send_fills b a itr fill_qty leaves_qty =
    let o = order b itr in
    let b1 = send_response b (record {
      type = ClientResponseType.filled;
      client_id = a.client_id;
      ticker_id = a.ticker_id;
      client_order_id = a.client_order_id;
      market_order_id = a.market_order_id;
      side = a.side;
      price = o.price;
      exec_qty = fill_qty;
      leaves_qty = leaves_qty;
    }) in
    let b2 = send_response b1 (record {
      type = ClientResponseType.filled;
      client_id = o.client_id;
      ticker_id = a.ticker_id;
      client_order_id = o.client_order_id;
      market_order_id = o.market_order_id;
      side = o.side;
      price = o.price;
      exec_qty = fill_qty;
      leaves_qty = o.qty;
    }) in
    send_update b2 (record {
      type = MarketUpdateType.trade;
      order_id = order_id_invalid;
      ticker_id = a.ticker_id;
      side = a.side;
      price = o.price;
      qty = fill_qty;
      priority = priority_invalid;
    })

-- What follows a match: a passive order with nothing left is cancelled from the feed and removed.
unfoldable pub settle : MeOrderBook → Aggressor → Ptr → Qty → Result MeOrderBook
unfolding order send_update
settle b a itr order_qty =
    let o = order b itr in
    if o.qty == 0
    then remove_order
        (send_update b (record {
          type = MarketUpdateType.cancel;
          order_id = o.market_order_id;
          ticker_id = a.ticker_id;
          side = o.side;
          price = o.price;
          qty = order_qty;
          priority = priority_invalid;
        }))
        itr
    else ok (
        send_update b (record {
          type = MarketUpdateType.modify;
          order_id = o.market_order_id;
          ticker_id = a.ticker_id;
          side = o.side;
          price = o.price;
          qty = o.qty;
          priority = o.priority;
        }))

-- `match`: the quantity that the aggressive order has left, and the book. `fill_qty` is at most
-- either quantity, so neither subtraction wraps.
unfoldable pub match : MeOrderBook → Aggressor → Ptr → Qty → Result (Qty × MeOrderBook)
unfolding order set_order send_fills settle
match b a itr leaves_qty = do
  let order_qty = (order b itr).qty
  let fill_qty = min leaves_qty order_qty
  let leaves_qty' = leaves_qty - fill_qty
  let b1 = set_order b itr (record (order b itr) { qty = order_qty - fill_qty })
  b2 ← settle (send_fills b1 a itr fill_qty leaves_qty') a itr order_qty
  ok (leaves_qty', b2)

-- The best level of the other side.
unfoldable pub opposite_best : MeOrderBook → Side → Ptr
opposite_best b side = if is_buy side then b.asks_by_price else b.bids_by_price

-- The `break` of the two loops: the passive price is too far.
unfoldable pub too_far : Side → Price → Price → Bool
too_far side price passive = if is_buy side then ltb_ℤ price passive else ltb_ℤ passive price

-- A loop of `checkForMatch`. Every round but the last removes a passive order, so a round for each
-- block of the pool and one are enough.
unfoldable pub match_loop : Aggressor → ℕ → MeOrderBook → Qty → Result (Qty × MeOrderBook)
unfolding opposite_best level order too_far
match_loop a zero b leaves_qty = out_of_fuel
match_loop a (suc fuel) b leaves_qty =
    let p = opposite_best b a.side in
    let itr = (level b p).first_me_order in
    elim (leaves_qty == 0 || p == null || too_far a.side a.price (order b itr).price) [
      | true ↦ ok (leaves_qty, b)
      | false ↦ do (leaves_qty', b') ← match b a itr leaves_qty; match_loop a fuel b' leaves_qty'
    ]

-- The parameter `Qty new_market_order_id` of `checkForMatch` keeps the low 32 bits of the order's id.
abbrev pub narrowed : Aggressor → Aggressor
narrowed a = record a { market_order_id = a.market_order_id % u32_mod }

-- `checkForMatch`, with the order as `add` has it.
unfoldable pub check_for_match : MeOrderBook → Aggressor → Qty → Result (Qty × MeOrderBook)
check_for_match b a qty =
    if is_buy a.side || is_sell a.side
    then match_loop (narrowed a) (b.order_pool.size + 1) b qty
    else ok (qty, b)

-- The end of `add`: what is left rests in the book.
unfoldable pub rest : MeOrderBook → Aggressor → Qty → Result MeOrderBook
unfolding send_update
rest b a leaves_qty = do
  let priority = get_next_priority b a.price
  (p, pool) ← allocate b.order_pool (record {
    ticker_id = a.ticker_id;
    client_id = a.client_id;
    client_order_id = a.client_order_id;
    market_order_id = a.market_order_id;
    side = a.side;
    price = a.price;
    qty = leaves_qty;
    priority = priority;
    prev_order = null;
    next_order = null;
  })
  b1 ← add_order (record b { order_pool = pool }) p
  ok (
      send_update b1 (record {
        type = MarketUpdateType.add;
        order_id = a.market_order_id;
        ticker_id = a.ticker_id;
        side = a.side;
        price = a.price;
        qty = leaves_qty;
        priority = priority;
      }))

-- `add`
unfoldable pub add :
    MeOrderBook → ClientId → OrderId → TickerId → Side → Price → Qty → Result MeOrderBook
unfolding generate_new_market_order_id send_response rest
add b client_id client_order_id ticker_id side price qty = do
  let (new_market_order_id, b0) = generate_new_market_order_id b
  let b1 = send_response b0 (record {
    type = ClientResponseType.accepted;
    client_id = client_id;
    ticker_id = ticker_id;
    client_order_id = client_order_id;
    market_order_id = new_market_order_id;
    side = side;
    price = price;
    exec_qty = 0;
    leaves_qty = qty;
  })
  let a : Aggressor = record {
    client_id = client_id;
    client_order_id = client_order_id;
    ticker_id = ticker_id;
    side = side;
    price = price;
    market_order_id = new_market_order_id;
  }
  (leaves_qty, b2) ← check_for_match b1 a qty
  if leaves_qty == 0 then ok b2 else rest b2 a leaves_qty

-- The rejection of a cancel.
unfoldable pub reject_cancel : MeOrderBook → ClientId → OrderId → TickerId → MeOrderBook
unfolding send_response
reject_cancel b client_id order_id ticker_id = send_response b (record {
  type = ClientResponseType.cancel_rejected;
  client_id = client_id;
  ticker_id = ticker_id;
  client_order_id = order_id;
  market_order_id = order_id_invalid;
  side = Side.invalid;
  price = price_invalid;
  exec_qty = qty_invalid;
  leaves_qty = qty_invalid;
})

-- The removal of a live order by its client.
unfoldable pub accept_cancel :
    MeOrderBook → ClientId → OrderId → TickerId → Ptr → Result MeOrderBook
unfolding order send_response send_update
accept_cancel b client_id order_id ticker_id p = do
  let o = order b p
  b1 ← remove_order b p
  let b2 = send_update b1 (record {
    type = MarketUpdateType.cancel;
    order_id = o.market_order_id;
    ticker_id = ticker_id;
    side = o.side;
    price = o.price;
    qty = 0;
    priority = o.priority;
  })
  ok (
      send_response b2 (record {
        type = ClientResponseType.canceled;
        client_id = client_id;
        ticker_id = ticker_id;
        client_order_id = order_id;
        market_order_id = o.market_order_id;
        side = o.side;
        price = o.price;
        exec_qty = qty_invalid;
        leaves_qty = o.qty;
      }))

-- `cancel`: `co_itr.at(order_id)` throws out of range, in a `noexcept` function.
unfoldable pub cancel : MeOrderBook → ClientId → OrderId → TickerId → Result MeOrderBook
unfolding reject_cancel accept_cancel
cancel b client_id order_id ticker_id =
    let p = b.cid_oid_to_order client_id order_id in
    if ltb client_id me_max_num_clients
    then assert (ltb order_id me_max_order_ids)
      >> (if p == null
          then ok (reject_cancel b client_id order_id ticker_id)
          else accept_cancel b client_id order_id ticker_id p)
    else ok (reject_cancel b client_id order_id ticker_id)
