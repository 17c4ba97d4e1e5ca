-- ===== src/Exchange/OrderBook/Unlink.antt =====
-- What `removeOrder` of exchange/matcher/me_order_book.h does to memory when the order is not alone at
-- its level.
use low_latency_trading_syst.Prelude.{
  ◌<◌, ok, ◌≡◌, ◌≢◌, refl, true, update, ◌==◌, if◌then◌else◌, arith,
}
use low_latency_trading_syst.Ring.Change.{Bridged}
use low_latency_trading_syst.Common.MemPool.Defs.{Ptr, null, deallocate}
use low_latency_trading_syst.Exchange.OrderBook.State.{MeOrderBook, order, level}
use low_latency_trading_syst.Exchange.OrderBook.Orders.{unlink_order, drop_order}
use low_latency_trading_syst.Exchange.OrderBook.Shape.{next_order_of, prev_order_of, InUse}
use low_latency_trading_syst.Exchange.OrderBook.Frame.{LinksOnly, Dropped}
use low_latency_trading_syst.Common.Types.{me_max_num_clients, me_max_order_ids}

module _ (b : MeOrderBook) (at_price p : Ptr) where
  pub unlink_order-Bridged :
      prev_order_of b p ≢ p
      → next_order_of b p ≢ p
      → Bridged
          (next_order_of b)
          (prev_order_of b)
          (next_order_of (unlink_order b at_price p))
          (prev_order_of (unlink_order b at_price p))
          (prev_order_of b p)
          p
          (next_order_of b p)
  unfolding unlink_order update
  unlink_order-Bridged h k = record {
    next_u = ground arith;
    prev_w = ground arith;
    next_same = λ q hq kq. ground arith;
    prev_same = λ q hq kq. ground arith;
  }

  pub unlink_order-LinksOnly : LinksOnly b (unlink_order b at_price p)
  unfolding unlink_order update
  unlink_order-LinksOnly = record {
    contents = λ q. ground arith;
    order_free = λ q. ground arith;
    order_size = ground arith;
    order_next = ground arith;
    level_side = λ q. ground arith;
    level_price = λ q. ground arith;
    level_next = λ q. ground arith;
    level_prev = λ q. ground arith;
    level_free = λ q. ground arith;
    level_size = ground arith;
    level_next_free = ground arith;
    bids = ground arith;
    asks = ground arith;
    prices = ground arith;
    clients = ground arith;
    sent = ground arith;
    next_id = ground arith;
  }

  pub unlink_order-order :
      (q : Ptr)
      → q ≢ p
      → q ≢ prev_order_of b p
      → q ≢ next_order_of b p
      → order (unlink_order b at_price p) q ≡ order b q
  unfolding unlink_order update
  unlink_order-order q h k l = ground arith

  pub unlink_order-level :
      (q : Ptr)
      → level (unlink_order b at_price p) q ≡ (
          if q == at_price
          then record (level b q) {
            first_me_order =
                if (level b q).first_me_order == p
                then next_order_of b p
                else (level b q).first_me_order;
          }
          else level b q)
  unfolding unlink_order update
  unlink_order-level q = ground arith

-- The order leaves its client's map and the pool.
module _ (b : MeOrderBook) (p : Ptr) (live : InUse b.order_pool p) where
  dropped : MeOrderBook
  dropped = record b {
    cid_oid_to_order = λ c.
        if c == (order b p).client_id
        then update (b.cid_oid_to_order c) (order b p).client_order_id null
        else b.cid_oid_to_order c;
    order_pool = record b.order_pool {
      store = update b.order_pool.store p (record (b.order_pool.store p) { is_free = true });
    };
  }

  pub drop_order-Dropped :
      (order b p).client_id < me_max_num_clients
      → (order b p).client_order_id < me_max_order_ids
      → (b' : MeOrderBook) × (drop_order b p ≡ ok b') × Dropped b b' p
  unfolding drop_order dropped update deallocate
  drop_order-Dropped h k = (
    dropped,
    ground (arith, live),
    record {
      same_orders = λ q. ground arith;
      order_free = λ q ne. ground arith;
      freed = ground arith;
      order_size = refl;
      order_next = refl;
      level_pool = refl;
      bids = refl;
      asks = refl;
      prices = refl;
      sent = refl;
      next_id = refl;
      clients = λ c o. ground arith;
    },
  )
