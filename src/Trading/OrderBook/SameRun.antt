-- ===== src/Trading/OrderBook/SameRun.antt =====
-- The operations of trading/strategy/market_order_book.h that can end the process, and those of
-- exchange/matcher/me_order_book.h on the same memory: `removeOrdersAtPrice` and `removeOrder`.
use low_latency_trading_syst.Prelude.{
  ℕ, ◌≡◌, refl, ap, ap₂, ◌∙◌, fun_ext, Bool, true, false, ◌==◌, ltb, if◌then◌else◌, Bool-cases, inl,
  inr, Result, Result-cases, ok, fatal, out_of_fuel, ◌>>=◌,
}
use low_latency_trading_syst.Common.Types.{Price, Side, OrderId, me_max_order_ids}
use low_latency_trading_syst.Common.MemPool.Defs.{Ptr, null, deallocate}
use low_latency_trading_syst.Common.MemPool.Map.{deallocate-map_pool}
use low_latency_trading_syst.Exchange.OrderBook.State.{MeOrderBook}
use low_latency_trading_syst.Exchange.OrderBook.State as Me
use low_latency_trading_syst.Exchange.OrderBook.Levels as MeLevels
use low_latency_trading_syst.Exchange.OrderBook.Orders as MeOrders
use low_latency_trading_syst.Trading.OrderBook.State.{MarketOrderBook}
use low_latency_trading_syst.Trading.OrderBook.State as Market
use low_latency_trading_syst.Trading.OrderBook.Levels
use low_latency_trading_syst.Trading.OrderBook.Orders
use low_latency_trading_syst.Trading.OrderBook.Embed.{embed, embed_order, embed_level}
use low_latency_trading_syst.Trading.OrderBook.Same.{
  IsSame, embed-IsSame, same_order, same_orders_at_price, put_orders_at_price, prev_order,
  unlink_order-IsSame, unlink_level-IsSame,
}

-- A run of the client's book as one of the exchange's.
abbrev pub embed_run : Result MarketOrderBook → Result MeOrderBook
embed_run run = run >>= λ b. ok (embed b)

pub record IsSameRun (r : Result MeOrderBook) (run : Result MarketOrderBook) : Type 0 where
  pub path : r ≡ embed_run run

pub ok-IsSameRun : {x : MeOrderBook} {b : MarketOrderBook} → IsSame x b → IsSameRun (ok x) (ok b)
ok-IsSameRun e = record { path = ap (λ x. ok x) e.path }

pub bind-IsSameRun :
    {r : Result MeOrderBook} (k' : MeOrderBook → Result MeOrderBook) (run : Result MarketOrderBook)
    (k : MarketOrderBook → Result MarketOrderBook)
    → IsSameRun r run
    → ((x : MeOrderBook) (b : MarketOrderBook) → IsSame x b → IsSameRun (k' x) (k b))
    → IsSameRun (r >>= k') (run >>= k)
bind-IsSameRun k' (ok b) k e h = record {
  path = ap (λ r. r >>= k') e.path ∙ (h (embed b) b (embed-IsSame b)).path;
}
bind-IsSameRun k' fatal k e h = record { path = ap (λ r. r >>= k') e.path }
bind-IsSameRun k' out_of_fuel k e h = record { path = ap (λ r. r >>= k') e.path }

pub if-IsSameRun :
    {x y : Result MeOrderBook} {b d : Result MarketOrderBook} (c : Bool) {c' : Bool}
    → c' ≡ c
    → IsSameRun x b
    → IsSameRun y d
    → IsSameRun (if c' then x else y) (if c then b else d)
if-IsSameRun true e f g = record { path = rw e f.path }
if-IsSameRun false e f g = record { path = rw e g.path }

set_oid-embed :
    (b : MarketOrderBook) (o : OrderId) (p : Ptr)
    → MeOrders.set_client_order (embed b) 0 o p ≡ embed_run (Orders.set_oid b o p)
unfolding embed MeOrders.set_client_order Orders.set_oid
set_oid-embed b o p = elim (Bool-cases (ltb o me_max_order_ids)) [
  | inl inside ↦ rw inside (
      ap (λ m. ok (record (embed b) { cid_oid_to_order = m }))
        (fun_ext (λ c. elim (Bool-cases (c == 0)) [
          | inl here ↦ rw here refl
          | inr other ↦ rw other refl
        ])))
  | inr outside ↦ rw outside refl
]

module _ {x : MeOrderBook} {b : MarketOrderBook} (e : IsSame x b) where
  pub set_oid-IsSameRun :
      {c o' o : ℕ} (p : Ptr)
      → c ≡ 0
      → o' ≡ o
      → IsSameRun (MeOrders.set_client_order x c o' p) (Orders.set_oid b o p)
  set_oid-IsSameRun {c} {o'} {o} p i j = record {
    path =
        ap (λ y. MeOrders.set_client_order y c o' p) e.path
        ∙ ap₂ (λ r s. MeOrders.set_client_order (embed b) r s p) i j
        ∙ set_oid-embed b o p;
  }

  free_order-IsSameRun :
      (p : Ptr)
      → IsSameRun
          (deallocate x.order_pool p >>= λ pool. ok (record x { order_pool = pool }))
          (deallocate b.order_pool p >>= λ pool. ok (record b { order_pool = pool }))
  unfolding embed
  free_order-IsSameRun p = record {
    path =
        ap
          (λ (y : MeOrderBook).
            deallocate y.order_pool p >>= λ pool. ok (record y { order_pool = pool }))
          e.path
        ∙ rw (deallocate-map_pool embed_order b.order_pool p)
            (elim (Result-cases (deallocate b.order_pool p)) [
              | inl (inl (q, run)) ↦ rw run refl
              | inl (inr run) ↦ rw run refl
              | inr run ↦ rw run refl
            ]);
  }

  free_level-IsSameRun :
      (p : Ptr)
      → IsSameRun
          (deallocate x.orders_at_price_pool p >>= λ pool.
            ok (record x { orders_at_price_pool = pool }))
          (deallocate b.orders_at_price_pool p >>= λ pool.
            ok (record b { orders_at_price_pool = pool }))
  unfolding embed
  free_level-IsSameRun p = record {
    path =
        ap
          (λ (y : MeOrderBook). deallocate y.orders_at_price_pool p >>= λ pool.
            ok (record y { orders_at_price_pool = pool }))
          e.path
        ∙ rw (deallocate-map_pool embed_level b.orders_at_price_pool p)
            (elim (Result-cases (deallocate b.orders_at_price_pool p)) [
              | inl (inl (q, run)) ↦ rw run refl
              | inl (inr run) ↦ rw run refl
              | inr run ↦ rw run refl
            ]);
  }

drop_order-IsSameRun :
    {x : MeOrderBook} {b : MarketOrderBook} (p : Ptr)
    → IsSame x b
    → IsSameRun (MeOrders.drop_order x p) (Orders.drop_order b p)
unfolding MeOrders.drop_order Orders.drop_order
drop_order-IsSameRun {x} {b} p e =
    bind-IsSameRun _ (Orders.set_oid b (Market.order b p).order_id null) _
      (set_oid-IsSameRun e null (ap (λ o. o.client_id) (same_order e p))
        (ap (λ o. o.client_order_id) (same_order e p)))
      (λ y d h. free_order-IsSameRun h p)

remove_orders_at_price-IsSameRun :
    {x : MeOrderBook} {b : MarketOrderBook} {side side' : Side} {price price' : Price}
    → IsSame x b
    → side' ≡ side
    → price' ≡ price
    → IsSameRun
        (MeLevels.remove_orders_at_price x side' price')
        (Levels.remove_orders_at_price b side price)
unfolding MeLevels.remove_orders_at_price Levels.remove_orders_at_price
remove_orders_at_price-IsSameRun {x} {b} {side} {side'} {price} {price'} e i j =
    let same = same_orders_at_price e price' ∙ ap (λ r. Market.get_orders_at_price b r) j in
    rw i
      (rw same (free_level-IsSameRun (put_orders_at_price (unlink_level-IsSame e side _) null j) _))

-- `removeOrder` of the client's book does what that of the exchange's does on the same memory: the one
-- ends the process just when the other does, and else leaves the same book.
remove_order-IsSameRun :
    {x : MeOrderBook} {b : MarketOrderBook} (p : Ptr)
    → IsSame x b
    → IsSameRun (MeOrders.remove_order x p) (Orders.remove_order b p)
unfolding MeOrders.remove_order Orders.remove_order
remove_order-IsSameRun {x} {b} p e =
    let price = ap (λ o. o.price) (same_order e p) in
    let same =
      same_orders_at_price e (Me.order x p).price
      ∙ ap (λ r. Market.get_orders_at_price b r) price in
    bind-IsSameRun _
      (if (Market.order b p).prev_order == p
        then Levels.remove_orders_at_price b (Market.order b p).side (Market.order b p).price
        else ok (Orders.unlink_order b (Market.get_orders_at_price b (Market.order b p).price) p))
      _
      (if-IsSameRun _ (ap (λ q. q == p) (prev_order e p))
        (remove_orders_at_price-IsSameRun e (ap (λ o. o.side) (same_order e p)) price)
        (ok-IsSameRun (unlink_order-IsSame e p same)))
      (λ y d h. drop_order-IsSameRun p h)

-- `removeOrder` of the client's book is that of the exchange's book on the same memory: the one ends the
-- process just when the other does, and else both leave the same book.
pub remove_order-embed :
    (b : MarketOrderBook) (p : Ptr)
    → MeOrders.remove_order (embed b) p ≡ embed_run (Orders.remove_order b p)
remove_order-embed b p = (remove_order-IsSameRun p (embed-IsSame b)).path
