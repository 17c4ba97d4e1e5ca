-- ===== src/Trading/OrderBook/SameAdd.antt =====
-- `addOrdersAtPrice` and `addOrder` of trading/strategy/market_order_book.h and those of
-- exchange/matcher/me_order_book.h on the same memory.
use low_latency_trading_syst.Prelude.{
  ℕ, zero, suc, ◌+◌, ◌≡◌, refl, ap, ◌∙◌, Bool, true, false, not, ◌&&◌, ◌==◌, if◌then◌else◌,
  Bool-cases, inl, inr, Result, Result-cases, ok, fatal, out_of_fuel, ◌>>=◌,
}
use low_latency_trading_syst.Common.Types.{Price, Side}
use low_latency_trading_syst.Common.MemPool.Defs.{Ptr, null, allocate}
use low_latency_trading_syst.Common.MemPool.Map.{allocate-map_pool}
use low_latency_trading_syst.Exchange.OrderBook.State.{
  MeOrdersAtPrice, MeOrderBook, goes_after, is_better,
}
use low_latency_trading_syst.Exchange.OrderBook.State as Me
use low_latency_trading_syst.Exchange.OrderBook.Levels as MeLevels
use low_latency_trading_syst.Exchange.OrderBook.Orders as MeOrders
use low_latency_trading_syst.Trading.OrderBook.State.{MarketOrdersAtPrice, MarketOrderBook}
use low_latency_trading_syst.Trading.OrderBook.State as Market
use low_latency_trading_syst.Trading.OrderBook.Levels
use low_latency_trading_syst.Trading.OrderBook.Orders
use low_latency_trading_syst.Trading.OrderBook.Embed.{embed, embed_level}
use low_latency_trading_syst.Trading.OrderBook.Same.{
  IsSame, embed-IsSame, if-IsSame, same_order, same_level, same_best, same_orders_at_price,
  put_orders_at_price, put_best, put_next_order, put_prev_order, put_next_entry, put_prev_entry,
  prev_entry, next_entry, link_order-IsSame,
}
use low_latency_trading_syst.Trading.OrderBook.SameRun.{
  embed_run, IsSameRun, ok-IsSameRun, bind-IsSameRun, if-IsSameRun, set_oid-IsSameRun,
}

module _ {x : MeOrderBook} {b : MarketOrderBook} (e : IsSame x b) where
  next_entry_at : {p p' : Ptr} → p' ≡ p → (Me.level x p').next_entry ≡ (Market.level b p).next_entry
  next_entry_at {p' = p'} i = next_entry e p' ∙ ap (λ q. (Market.level b q).next_entry) i

  first_order_at :
      {p p' : Ptr} → p' ≡ p → (Me.level x p').first_me_order ≡ (Market.level b p).first_mkt_order
  first_order_at {p' = p'} i =
      ap (λ l. l.first_me_order) (same_level e p') ∙ ap (λ q. (Market.level b q).first_mkt_order) i

  level_price : (p : Ptr) → (Me.level x p).price ≡ (Market.level b p).price
  level_price p = ap (λ l. l.price) (same_level e p)

  level_side : (p : Ptr) → (Me.level x p).side ≡ (Market.level b p).side
  level_side p = ap (λ l. l.side) (same_level e p)

  find_target-same :
      (side : Side) (price : Price) (top : Ptr) (n : ℕ) (target : Ptr) (after : Bool)
      → MeLevels.find_target x side price top n target after
        ≡ Levels.find_target b side price top n target after
  unfolding MeLevels.find_target Levels.find_target
  find_target-same side price top zero target after = refl
  find_target-same side price top (suc n) target after =
      elim (Bool-cases (after && not (target == top))) [
        | inl on ↦
            rw (MeLevels.find_target, Levels.find_target, on)
              (rw (level_price target)
                (rw (next_entry e target) (find_target-same side price top n _ _)))
        | inr over ↦ rw (MeLevels.find_target, Levels.find_target, over) refl
      ]

  find_target-rounds :
      (side : Side) (price : Price) (top : Ptr) {n n' : ℕ} (target : Ptr) (after : Bool)
      → n' ≡ n
      → MeLevels.find_target x side price top n' target after
        ≡ Levels.find_target b side price top n target after
  find_target-rounds side price top {n} target after i =
      ap (λ m. MeLevels.find_target x side price top m target after) i
      ∙ find_target-same side price top n target after

module _ {x : MeOrderBook} {b : MarketOrderBook} (e : IsSame x b) (new : Ptr) where
  link_after-IsSame :
      {t t' : Ptr} → t' ≡ t → IsSame (MeLevels.link_after x new t') (Levels.link_after b new t)
  unfolding MeLevels.link_after Levels.link_after
  link_after-IsSame i =
      let e1 = put_prev_entry e refl i in
      let e2 = put_prev_entry e1 (next_entry_at e1 i) refl in
      let e3 = put_next_entry e2 refl (next_entry_at e2 i) in put_next_entry e3 i refl

  link_before-IsSame :
      (t : Ptr) → IsSame (MeLevels.link_before x new t) (Levels.link_before b new t)
  unfolding MeLevels.link_before Levels.link_before
  link_before-IsSame t =
      let e1 = put_prev_entry e refl (prev_entry e t) in
      let e2 = put_next_entry e1 refl refl in
      let e3 = put_next_entry e2 (prev_entry e2 t) refl in put_prev_entry e3 refl refl

  promote-IsSame :
      (side : Side) (t top : Ptr)
      → IsSame (MeLevels.promote x side new t top) (Levels.promote b side new t top)
  unfolding MeLevels.promote Levels.promote
  promote-IsSame side t top =
      put_best (put_next_entry e refl (ap (λ q. if q == top then new else q) (next_entry e t))) side
        refl

place_level-IsSame :
    {x : MeOrderBook} {b : MarketOrderBook} (new top target : Ptr) (after : Bool)
    → IsSame x b
    → IsSame
        (MeLevels.place_level x new top target after)
        (Levels.place_level b new top target after)
unfolding MeLevels.place_level Levels.place_level
place_level-IsSame new top target true e =
    link_after-IsSame e new (ap (λ q. if target == top then q else target) (prev_entry e top))
place_level-IsSame new top target false e =
    let e1 = link_before-IsSame e new target in
    let side = level_side e1 new in
    rw side (
      rw (level_price e1 new)
        (rw (level_price e1 top) (if-IsSame _ refl (promote-IsSame e1 new _ target top) e1)))

set_up :
    {x : MeOrderBook} {b : MarketOrderBook} (side : Side) (new : Ptr)
    → IsSame x b
    → IsSame
        (Me.set_prev_entry (Me.set_next_entry (Me.set_best x side new) new new) new new)
        (Market.set_prev_entry (Market.set_next_entry (Market.set_best b side new) new new) new new)
set_up side new e = put_prev_entry (put_next_entry (put_best e side refl) refl refl) refl refl

size-same :
    {x : MeOrderBook} {b : MarketOrderBook}
    → IsSame x b
    → x.orders_at_price_pool.size ≡ b.orders_at_price_pool.size
unfolding embed
size-same e = ap (λ y. y.orders_at_price_pool.size) e.path

placed-IsSameRun :
    {x : MeOrderBook} {b : MarketOrderBook} (new top : Ptr) (found : Result (Ptr × Bool))
    {found' : Result (Ptr × Bool)}
    → IsSame x b
    → found' ≡ found
    → IsSameRun
        (found' >>= λ r. ok (MeLevels.place_level x new top r.0 r.1))
        (found >>= λ r. ok (Levels.place_level b new top r.0 r.1))
placed-IsSameRun new top (ok r) e i = record {
  path = rw i (ap (λ y. ok y) (place_level-IsSame new top r.0 r.1 e).path);
}
placed-IsSameRun new top fatal e i = record { path = rw i refl }
placed-IsSameRun new top out_of_fuel e i = record { path = rw i refl }

-- `addOrdersAtPrice`
add_orders_at_price-IsSameRun :
    {x : MeOrderBook} {b : MarketOrderBook} (new : Ptr)
    → IsSame x b
    → IsSameRun (MeLevels.add_orders_at_price x new) (Levels.add_orders_at_price b new)
unfolding MeLevels.add_orders_at_price Levels.add_orders_at_price
add_orders_at_price-IsSameRun {x} {b} new e0 =
    let side = (Market.level b new).side in
    let price = (Market.level b new).price in
    let e = put_orders_at_price e0 {price = price} {price' = price} new refl in
    let b1 = Market.set_orders_at_price b price new in
    let top = Market.best b1 side in
    rw (level_side e0 new) (
      rw (level_price e0 new) (
        rw (same_best e side) (
          if-IsSameRun (top == null) refl (ok-IsSameRun (set_up side new e)) (
            placed-IsSameRun new top _ e (
              rw (level_price e top) (
                rw (next_entry e top) (
                  rw (level_price e (Market.level b1 top).next_entry)
                    (find_target-rounds e side price top _ _ (ap (λ n. n + 1) (size-same e))))))))))

allocate_level-IsSameRun :
    {x : MeOrderBook} {b : MarketOrderBook} (l : MarketOrdersAtPrice) {l' : MeOrdersAtPrice}
    → IsSame x b
    → l' ≡ embed_level l
    → IsSameRun
        (allocate x.orders_at_price_pool l' >>= λ r.
          MeLevels.add_orders_at_price (record x { orders_at_price_pool = r.1 }) r.0)
        (allocate b.orders_at_price_pool l >>= λ r.
          Levels.add_orders_at_price (record b { orders_at_price_pool = r.1 }) r.0)
unfolding embed
allocate_level-IsSameRun {x} {b} l {l'} e i = record {
  path =
      ap
        (λ (y : MeOrderBook). allocate y.orders_at_price_pool l' >>= λ r.
          MeLevels.add_orders_at_price (record y { orders_at_price_pool = r.1 }) r.0)
        e.path
      ∙ ap
          (λ (k : MeOrdersAtPrice). allocate (embed b).orders_at_price_pool k >>= λ r.
            MeLevels.add_orders_at_price (record (embed b) { orders_at_price_pool = r.1 }) r.0)
          i
      ∙ rw (allocate-map_pool embed_level b.orders_at_price_pool l)
          (elim (Result-cases (allocate b.orders_at_price_pool l)) [
            | inl (inl (r, run)) ↦
                rw run
                  (add_orders_at_price-IsSameRun r.0
                    (embed-IsSame (record b { orders_at_price_pool = r.1 }))).path
            | inl (inr run) ↦ rw run refl
            | inr run ↦ rw run refl
          ]);
}

-- `addOrder`
add_order-IsSameRun :
    {x : MeOrderBook} {b : MarketOrderBook} (p : Ptr)
    → IsSame x b
    → IsSameRun (MeOrders.add_order x p) (Orders.add_order b p)
unfolding MeOrders.add_order Orders.add_order
add_order-IsSameRun {x} {b} p e =
    let price = ap (λ o. o.price) (same_order e p) in
    let at =
      same_orders_at_price e (Me.order x p).price
      ∙ ap (λ r. Market.get_orders_at_price b r) price in
    let e0 =
      put_next_order (put_prev_order e {p = p} {p' = p} {q = p} {q' = p} refl refl) {p = p} {p' = p}
        {q = p} {q' = p} refl refl in
    bind-IsSameRun _ _ _
      (if-IsSameRun _ (ap (λ q. q == null) at)
        (allocate_level-IsSameRun _ e0 (
          ap
            (λ o. record {
              side = o.side;
              price = o.price;
              first_me_order = p;
              prev_entry = null;
              next_entry = null;
            })
            (same_order e0 p)))
        (ok-IsSameRun (link_order-IsSame e p (first_order_at e at))))
      (λ y d h.
        set_oid-IsSameRun h p (ap (λ o. o.client_id) (same_order h p))
          (ap (λ o. o.client_order_id) (same_order h p)))

-- `addOrder` of the client's book is that of the exchange's book on the same memory: the one ends the
-- process just when the other does, and else both leave the same book.
pub add_order-embed :
    (b : MarketOrderBook) (p : Ptr)
    → MeOrders.add_order (embed b) p ≡ embed_run (Orders.add_order b p)
add_order-embed b p = (add_order-IsSameRun p (embed-IsSame b)).path
