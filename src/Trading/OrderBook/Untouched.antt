-- ===== src/Trading/OrderBook/Untouched.antt =====
-- What `removeOrder` of trading/strategy/market_order_book.h leaves alone.
use low_latency_trading_syst.Prelude.{
  ◌≡◌, refl, ◌∙◌, if◌then◌else◌, ok, ok-injective, >>=-ok, ◌==◌, arith, Bool-cases, inl, inr, subst,
  ltb, update, ◌>>=◌,
}
use low_latency_trading_syst.Common.Types.{Side, Price, OrderId, me_max_order_ids}
use low_latency_trading_syst.Common.MemPool.Defs.{Ptr, null, deallocate}
use low_latency_trading_syst.Trading.OrderBook.State.{
  MarketOrderBook, order, set_order, set_level, set_prev_order, set_next_order, set_prev_entry,
  set_next_entry, set_first_order, set_best, get_orders_at_price, set_orders_at_price,
}
use low_latency_trading_syst.Trading.OrderBook.Levels.{unlink_level, remove_orders_at_price}
use low_latency_trading_syst.Trading.OrderBook.Orders.{
  unlink_order, set_oid, drop_order, remove_order,
}

-- The summary and the calls on the trade engine are as they were.
pub record Untouched (b b' : MarketOrderBook) : Type 0 where
  pub bbo : b'.bbo ≡ b.bbo
  pub notified : b'.notified ≡ b.notified

Untouched-then : {b d e : MarketOrderBook} → Untouched b d → Untouched d e → Untouched b e
Untouched-then s t = record { bbo = t.bbo ∙ s.bbo; notified = t.notified ∙ s.notified }

unlink_order-Untouched : (b : MarketOrderBook) (l p : Ptr) → Untouched b (unlink_order b l p)
unfolding unlink_order set_prev_order set_next_order set_first_order set_order set_level
unlink_order-Untouched b l p = record { bbo = ground arith; notified = ground arith }

unlink_level-Untouched :
    (b : MarketOrderBook) (side : Side) (p : Ptr) → Untouched b (unlink_level b side p)
unfolding unlink_level set_prev_entry set_next_entry set_level set_best
unlink_level-Untouched b side p = record { bbo = ground arith; notified = ground arith }

-- A pool or a map that is replaced in a run.
Untouched-ok : {b d b' : MarketOrderBook} → Untouched b d → ok d ≡ ok b' → Untouched b b'
Untouched-ok {b} u e = subst (λ x. Untouched b x) (ok-injective e) u

remove_orders_at_price-Untouched :
    (b b' : MarketOrderBook) (side : Side) (price : Price)
    → remove_orders_at_price b side price ≡ ok b'
    → Untouched b b'
unfolding remove_orders_at_price set_orders_at_price
remove_orders_at_price-Untouched b b' side price e =
    let p = get_orders_at_price b price in
    let b1 = set_orders_at_price (unlink_level b side p) price null in
    let u = unlink_level-Untouched b side p in
    let (pool, _, done) =
      >>=-ok (deallocate b1.orders_at_price_pool p)
        (λ pool. ok (record b1 { orders_at_price_pool = pool })) e in
    Untouched-ok {d = record b1 { orders_at_price_pool = pool }}
      (record { bbo = u.bbo; notified = u.notified }) done

set_oid-Untouched :
    (b b' : MarketOrderBook) (o : OrderId) (p : Ptr) → set_oid b o p ≡ ok b' → Untouched b b'
unfolding set_oid
set_oid-Untouched b b' o p e = elim (Bool-cases (ltb o me_max_order_ids)) [
  | inl inside ↦
      Untouched-ok {d = record b { oid_to_order = update b.oid_to_order o p }}
        (record { bbo = refl; notified = refl }) (ground (arith, inside, e))
  | inr outside ↦ absurd (ground (arith, outside, e))
]

drop_order-Untouched : (b b' : MarketOrderBook) (p : Ptr) → drop_order b p ≡ ok b' → Untouched b b'
unfolding drop_order
drop_order-Untouched b b' p e =
    let (b1, first, rest) =
      >>=-ok (set_oid b (order b p).order_id null)
        (λ d. deallocate d.order_pool p >>= λ pool. ok (record d { order_pool = pool })) e in
    let u = set_oid-Untouched b b1 (order b p).order_id null first in
    let (pool, _, done) =
      >>=-ok (deallocate b1.order_pool p) (λ pool. ok (record b1 { order_pool = pool })) rest in
    Untouched-ok {d = record b1 { order_pool = pool }}
      (record { bbo = u.bbo; notified = u.notified }) done

pub remove_order-Untouched :
    (b b' : MarketOrderBook) (p : Ptr) → remove_order b p ≡ ok b' → Untouched b b'
unfolding remove_order
remove_order-Untouched b b' p e =
    let at_price = get_orders_at_price b (order b p).price in
    let (d, first, last) =
      >>=-ok
        (if (order b p).prev_order == p
          then remove_orders_at_price b (order b p).side (order b p).price
          else ok (unlink_order b at_price p))
        (λ x. drop_order x p) e in
    Untouched-then
      (elim (Bool-cases ((order b p).prev_order == p)) [
        | inl alone ↦
            remove_orders_at_price-Untouched b d (order b p).side (order b p).price
              (ground (arith, alone, first))
        | inr more ↦
            Untouched-ok (unlink_order-Untouched b at_price p) (ground (arith, more, first))
      ])
      (drop_order-Untouched d b' p last)
