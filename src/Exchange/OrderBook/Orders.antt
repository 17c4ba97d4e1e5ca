-- ===== src/Exchange/OrderBook/Orders.antt =====
-- The orders at a price level of exchange/matcher/me_order_book.h: a ring in order of arrival.
use low_latency_trading_syst.Prelude.{
  ◌+◌, ◌%◌, ◌&&◌, update, ltb, ◌==◌, if◌then◌else◌, Result, ok, ◌>>=◌, ◌>>◌, assert,
}
use low_latency_trading_syst.Common.Types.{
  Price, ClientId, OrderId, Priority, u64_mod, me_max_num_clients, me_max_order_ids,
}
use low_latency_trading_syst.Common.MemPool.Defs.{Ptr, null, allocate, deallocate}
use low_latency_trading_syst.Exchange.OrderBook.State.{
  MeOrderBook, order, level, set_prev_order, set_next_order, set_first_order, get_orders_at_price,
}
use low_latency_trading_syst.Exchange.OrderBook.Levels.{add_orders_at_price, remove_orders_at_price}

-- `cid_oid_to_order_.at(client_id).at(order_id) = p`. `at` throws out of range, and the callers are
-- `noexcept`.
unfoldable pub set_client_order : MeOrderBook → ClientId → OrderId → Ptr → Result MeOrderBook
set_client_order b client_id order_id p = do
  assert (ltb client_id me_max_num_clients && ltb order_id me_max_order_ids)
  ok (record b {
    cid_oid_to_order = λ c.
        if c == client_id then update (b.cid_oid_to_order c) order_id p else b.cid_oid_to_order c;
  })

-- `getNextPriority`
unfoldable pub get_next_priority : MeOrderBook → Price → Priority
unfolding get_orders_at_price level order
get_next_priority b price =
    let p = get_orders_at_price b price in
    if p == null
    then 1
    else ((order b (order b (level b p).first_me_order).prev_order).priority + 1) % u64_mod

-- The unlinking branch of `removeOrder`, for an order that is not alone at the level `at_price`.
unfoldable pub unlink_order : MeOrderBook → Ptr → Ptr → MeOrderBook
unfolding order level set_next_order set_prev_order set_first_order
unlink_order b at_price p =
    let order_before = (order b p).prev_order in
    let order_after = (order b p).next_order in
    let b1 = set_next_order b order_before order_after in
    let b2 = set_prev_order b1 order_after order_before in
    let b3 =
      if (level b2 at_price).first_me_order == p
      then set_first_order b2 at_price order_after
      else b2 in
    set_prev_order (set_next_order b3 p null) p null

-- The last two statements of `removeOrder`.
unfoldable pub drop_order : MeOrderBook → Ptr → Result MeOrderBook
unfolding order set_client_order
drop_order b p = do
  b1 ← set_client_order b (order b p).client_id (order b p).client_order_id null
  pool ← deallocate b1.order_pool p
  ok (record b1 { order_pool = pool })

-- `removeOrder`
unfoldable pub remove_order : MeOrderBook → Ptr → Result MeOrderBook
unfolding order get_orders_at_price unlink_order
remove_order b p = do
  let at_price = get_orders_at_price b (order b p).price
  b1 ←
      if (order b p).prev_order == p
      then remove_orders_at_price b (order b p).side (order b p).price
      else ok (unlink_order b at_price p)
  drop_order b1 p

-- The branch of `addOrder` for a level that exists: the order goes behind the last.
unfoldable pub link_order : MeOrderBook → Ptr → Ptr → MeOrderBook
unfolding order set_next_order set_prev_order
link_order b first_order p =
    let b1 = set_next_order b (order b first_order).prev_order p in
    let b2 = set_prev_order b1 p (order b1 first_order).prev_order in
    let b3 = set_next_order b2 p first_order in set_prev_order b3 first_order p

-- `addOrder`
unfoldable pub add_order : MeOrderBook → Ptr → Result MeOrderBook
unfolding order level get_orders_at_price set_next_order set_prev_order link_order
add_order b p = do
  let at_price = get_orders_at_price b (order b p).price
  b1 ←
      if at_price == null
      then (do
        let b0 = set_next_order (set_prev_order b p p) p p
        (new, pool) ← allocate b0.orders_at_price_pool (record {
          side = (order b0 p).side;
          price = (order b0 p).price;
          first_me_order = p;
          prev_entry = null;
          next_entry = null;
        })
        add_orders_at_price (record b0 { orders_at_price_pool = pool }) new)
      else ok (link_order b (level b at_price).first_me_order p)
  set_client_order b1 (order b1 p).client_id (order b1 p).client_order_id p
