-- ===== src/Trading/OrderBook/Same.antt =====
-- The links and tests of trading/strategy/market_order_book.h on a book that is the same as one of
-- exchange/matcher/me_order_book.h.
use low_latency_trading_syst.Prelude.{
  ◌≡◌, refl, ap, ap₂, ◌∙◌, Bool, true, false, ◌==◌, if◌then◌else◌,
}
use low_latency_trading_syst.Common.Types.{Price, Side}
use low_latency_trading_syst.Common.MemPool.Defs.{Ptr}
use low_latency_trading_syst.Exchange.OrderBook.State.{MeOrderBook}
use low_latency_trading_syst.Exchange.OrderBook.State as Me
use low_latency_trading_syst.Exchange.OrderBook.Levels as MeLevels
use low_latency_trading_syst.Exchange.OrderBook.Orders as MeOrders
use low_latency_trading_syst.Trading.OrderBook.State.{MarketOrderBook}
use low_latency_trading_syst.Trading.OrderBook.State as Market
use low_latency_trading_syst.Trading.OrderBook.Levels
use low_latency_trading_syst.Trading.OrderBook.Orders
use low_latency_trading_syst.Trading.OrderBook.Embed.{
  embed, embed_order, embed_level, order-embed, level-embed, set_prev_order-embed,
  set_next_order-embed, set_prev_entry-embed, set_next_entry-embed, set_first_order-embed,
  best-embed, set_best-embed, get_orders_at_price-embed, set_orders_at_price-embed,
}

-- A book of the exchange that is the client's.
pub record IsSame (x : MeOrderBook) (b : MarketOrderBook) : Type 0 where
  pub path : x ≡ embed b

pub embed-IsSame : (b : MarketOrderBook) → IsSame (embed b) b
embed-IsSame b = record { path = refl }

pub if-IsSame :
    {x y : MeOrderBook} {b d : MarketOrderBook} (c : Bool) {c' : Bool}
    → c' ≡ c
    → IsSame x b
    → IsSame y d
    → IsSame (if c' then x else y) (if c then b else d)
if-IsSame true e f g = record { path = rw e f.path }
if-IsSame false e f g = record { path = rw e g.path }

-- A setter that is the same on both gives the same on books that are the same.
lift :
    (f : MeOrderBook → Ptr → Ptr → MeOrderBook) (g : MarketOrderBook → Ptr → Ptr → MarketOrderBook)
    (h : (b : MarketOrderBook) (p q : Ptr) → f (embed b) p q ≡ embed (g b p q)) {x : MeOrderBook}
    {b : MarketOrderBook} {p p' q q' : Ptr}
    → IsSame x b
    → p' ≡ p
    → q' ≡ q
    → IsSame (f x p' q') (g b p q)
lift f g h {b = b} {p} {p'} {q} {q'} e i j = record {
  path = ap (λ y. f y p' q') e.path ∙ ap₂ (λ r s. f (embed b) r s) i j ∙ h b p q;
}

module _ {x : MeOrderBook} {b : MarketOrderBook} (e : IsSame x b) where
  pub same_order : (p : Ptr) → Me.order x p ≡ embed_order (Market.order b p)
  same_order p = ap (λ y. Me.order y p) e.path ∙ order-embed b p

  pub same_level : (p : Ptr) → Me.level x p ≡ embed_level (Market.level b p)
  same_level p = ap (λ y. Me.level y p) e.path ∙ level-embed b p

  pub prev_order : (p : Ptr) → (Me.order x p).prev_order ≡ (Market.order b p).prev_order
  prev_order p = ap (λ o. o.prev_order) (same_order p)

  prev_order_at : {p p' : Ptr} → p' ≡ p → (Me.order x p').prev_order ≡ (Market.order b p).prev_order
  prev_order_at {p' = p'} i = prev_order p' ∙ ap (λ q. (Market.order b q).prev_order) i

  first_at :
      (p : Ptr) {t t' : Ptr}
      → t' ≡ t
      → ((Me.level x t').first_me_order == p) ≡ ((Market.level b t).first_mkt_order == p)
  first_at p {t' = t'} i =
      ap (λ l. l.first_me_order == p) (same_level t')
      ∙ ap (λ q. (Market.level b q).first_mkt_order == p) i

  pub next_order : (p : Ptr) → (Me.order x p).next_order ≡ (Market.order b p).next_order
  next_order p = ap (λ o. o.next_order) (same_order p)

  pub prev_entry : (p : Ptr) → (Me.level x p).prev_entry ≡ (Market.level b p).prev_entry
  prev_entry p = ap (λ o. o.prev_entry) (same_level p)

  pub next_entry : (p : Ptr) → (Me.level x p).next_entry ≡ (Market.level b p).next_entry
  next_entry p = ap (λ o. o.next_entry) (same_level p)

  module _ {p p' q q' : Ptr} (i : p' ≡ p) (j : q' ≡ q) where
    pub put_next_order : IsSame (Me.set_next_order x p' q') (Market.set_next_order b p q)
    put_next_order = lift Me.set_next_order Market.set_next_order set_next_order-embed e i j

    pub put_prev_order : IsSame (Me.set_prev_order x p' q') (Market.set_prev_order b p q)
    put_prev_order = lift Me.set_prev_order Market.set_prev_order set_prev_order-embed e i j

    pub put_next_entry : IsSame (Me.set_next_entry x p' q') (Market.set_next_entry b p q)
    put_next_entry = lift Me.set_next_entry Market.set_next_entry set_next_entry-embed e i j

    pub put_prev_entry : IsSame (Me.set_prev_entry x p' q') (Market.set_prev_entry b p q)
    put_prev_entry = lift Me.set_prev_entry Market.set_prev_entry set_prev_entry-embed e i j

    pub put_first_order : IsSame (Me.set_first_order x p' q') (Market.set_first_order b p q)
    put_first_order = lift Me.set_first_order Market.set_first_order set_first_order-embed e i j

  pub put_best :
      (side : Side) {q q' : Ptr}
      → q' ≡ q
      → IsSame (Me.set_best x side q') (Market.set_best b side q)
  put_best side {q} {q'} j = record {
    path =
        ap (λ y. Me.set_best y side q') e.path
        ∙ ap (λ r. Me.set_best (embed b) side r) j
        ∙ set_best-embed b side q;
  }

  pub same_best : (side : Side) → Me.best x side ≡ Market.best b side
  same_best side = ap (λ y. Me.best y side) e.path ∙ best-embed b side

  pub same_orders_at_price :
      (price : Price) → Me.get_orders_at_price x price ≡ Market.get_orders_at_price b price
  same_orders_at_price price =
      ap (λ y. Me.get_orders_at_price y price) e.path ∙ get_orders_at_price-embed b price

  pub put_orders_at_price :
      {price price' : Price} (p : Ptr)
      → price' ≡ price
      → IsSame (Me.set_orders_at_price x price' p) (Market.set_orders_at_price b price p)
  put_orders_at_price {price} {price'} p i = record {
    path =
        ap (λ y. Me.set_orders_at_price y price' p) e.path
        ∙ ap (λ r. Me.set_orders_at_price (embed b) r p) i
        ∙ set_orders_at_price-embed b price p;
  }

module _ {x : MeOrderBook} {b : MarketOrderBook} (e : IsSame x b) where
  pub link_order-IsSame :
      {f f' : Ptr} (p : Ptr)
      → f' ≡ f
      → IsSame (MeOrders.link_order x f' p) (Orders.link_order b f p)
  unfolding MeOrders.link_order Orders.link_order
  link_order-IsSame {f} {f'} p i =
      let e1 = put_next_order e (prev_order_at e i) refl in
      let e2 = put_prev_order e1 refl (prev_order_at e1 i) in
      let e3 = put_next_order e2 refl i in put_prev_order e3 i refl

  pub unlink_order-IsSame :
      {t t' : Ptr} (p : Ptr)
      → t' ≡ t
      → IsSame (MeOrders.unlink_order x t' p) (Orders.unlink_order b t p)
  unfolding MeOrders.unlink_order Orders.unlink_order
  unlink_order-IsSame {t} {t'} p i =
      let e1 = put_next_order e (prev_order e p) (next_order e p) in
      let e2 = put_prev_order e1 (next_order e p) (prev_order e p) in
      let e3 = if-IsSame _ (first_at e2 p i) (put_first_order e2 i (next_order e p)) e2 in
      put_prev_order (put_next_order e3 refl refl) refl refl

  pub unlink_level-IsSame :
      (side : Side) (p : Ptr)
      → IsSame (MeLevels.unlink_level x side p) (Levels.unlink_level b side p)
  unfolding MeLevels.unlink_level Levels.unlink_level
  unlink_level-IsSame side p =
      let e1 = put_next_entry e (prev_entry e p) (next_entry e p) in
      let e2 = put_prev_entry e1 (next_entry e1 p) (prev_entry e1 p) in
      let test = ap (λ q. p == q) (same_best e side) in
      let e3 = if-IsSame _ test (put_best e2 side (next_entry e2 p)) e2 in
      if-IsSame _ (ap (λ q. q == p) (next_entry e p)) (put_best e side refl)
        (put_prev_entry (put_next_entry e3 refl refl) refl refl)
