-- ===== src/Trading/OrderBook/Best.antt =====
-- `updateBBO` and the cancel of trading/strategy/market_order_book.h and market_order_book.cpp on a
-- well-formed book, which is one that is well formed as a book of the exchange.
use low_latency_trading_syst.Prelude.{
  ℕ, zero, suc, ◌+◌, ◌%◌, ◌≤◌, ◌<◌, ◌≡◌, refl, sym, ap, ◌∙◌, subst, true, false, ◌==◌, List, [],
  ◌∷◌, length, ok, arith,
}
use low_latency_trading_syst.Ring.Chain.{has, Chain}
use low_latency_trading_syst.Ring.Bound.{Within, length-le-bound}
use low_latency_trading_syst.Common.Types.{Price, price_invalid, Qty, qty_invalid, Side, u32_mod}
use low_latency_trading_syst.Common.MemPool.Defs.{Ptr, null}
use low_latency_trading_syst.Exchange.OrderBook.State.{best}
use low_latency_trading_syst.Exchange.OrderBook.Shape.{
  Entry, orders, head_ptr, IsOrder, IsLevel, IsSide, IsBook, next_order_of, prev_order_of,
}
use low_latency_trading_syst.Exchange.OrderBook.Frame as Me
use low_latency_trading_syst.Exchange.OrderBook.State as Book
use low_latency_trading_syst.Exchange.OrderBook.Frame.{All-frame}
use low_latency_trading_syst.Trading.OrderBook.State.{MarketOrder, MarketOrderBook, order, level}
use low_latency_trading_syst.Trading.OrderBook.Update.{
  add_qty, level_qty, best_of, update_bid, update_ask, update_bbo,
}
use low_latency_trading_syst.Trading.OrderBook.Embed.{embed, order-embed, level-embed}
use low_latency_trading_syst.Trading.OrderBook.Untouched.{Untouched}

-- The quantity of some orders together.
abbrev pub total : MarketOrderBook → List Ptr → ℕ
total b [] = 0
total b (p ∷ ps) = (order b p).qty + total b ps

-- What the top of a side promises: the price and the whole quantity of the best level.
abbrev pub top_of : MarketOrderBook → List Entry → Price × Qty
top_of b [] = (price_invalid, qty_invalid)
top_of b (e ∷ es) = (e.price, total b (orders e))

-- The whole quantity of the best level fits in 32 bits.
abbrev pub Fits : MarketOrderBook → List Entry → Type 0
Fits b [] = Unit
Fits b (e ∷ es) = total b (orders e) < u32_mod

next_order-embed :
    (b : MarketOrderBook) (p : Ptr) → next_order_of (embed b) p ≡ (order b p).next_order
next_order-embed b p = ap (λ o. o.next_order) (order-embed b p)

add_qty-total :
    (b : MarketOrderBook) (n : ℕ) (first a : Ptr) (ps : List Ptr) (q : ℕ)
    → Chain (next_order_of (embed b)) (prev_order_of (embed b)) a ps first
    → has first ps ≡ false
    → length ps < n
    → q + total b ps < u32_mod
    → add_qty b n first (order b a).next_order q ≡ ok (q + total b ps)
unfolding add_qty
add_qty-total b zero first a ps q c h f room = absurd (omega (arith, f))
add_qty-total b (suc n) first a [] q c h f room =
    let back : (order b a).next_order ≡ first = sym (next_order-embed b a) ∙ c.0 in
    let here : (first == first) ≡ true = ground arith in
    let none_more : q ≡ q + 0 = omega arith in
    rw back (rw (add_qty, here) (ap (λ k. ok k) none_more))
add_qty-total b (suc n) first a (p ∷ ps) q c h f room =
    let on : (order b a).next_order ≡ p = sym (next_order-embed b a) ∙ c.0 in
    let other : (p == first) ≡ false = ground (arith, h) in
    let sum : (q + (order b p).qty) % u32_mod ≡ q + (order b p).qty = omega (arith, room) in
    let same : q + (order b p).qty + total b ps ≡ q + ((order b p).qty + total b ps) =
      omega arith in
    rw on (
      rw (add_qty, other)
        (rw sum (
          add_qty-total b n first p ps (q + (order b p).qty) c.2 (ground (arith, h))
            (omega (arith, f)) (omega (arith, room))
          ∙ ap (λ k. ok k) same)))

size-embed : (b : MarketOrderBook) → (embed b).order_pool.size ≡ b.order_pool.size
unfolding embed
size-embed b = refl

module _ (b : MarketOrderBook) (side : Side) (e : Entry) (v : IsLevel (embed b) side e) where
  price-level : (level b e.ptr).price ≡ e.price
  price-level = sym (ap (λ l. l.price) (level-embed b e.ptr)) ∙ v.at_price

  first-level : (level b e.ptr).first_mkt_order ≡ e.first
  first-level = sym (ap (λ l. l.first_me_order) (level-embed b e.ptr)) ∙ v.first

  orders-le : length (orders e) ≤ b.order_pool.size
  orders-le =
      subst (λ n. length (orders e) ≤ n) (size-embed b)
        (length-le-bound (embed b).order_pool.size (orders e) v.distinct (
          All-frame (IsOrder (embed b) side e.price) (Within (embed b).order_pool.size) (orders e)
            (λ q _ o. (o.block.positive, o.block.in_pool)) v.members))

  level_qty-total : total b (orders e) < u32_mod → level_qty b e.ptr ≡ ok (total b (orders e))
  unfolding level_qty
  level_qty-total fits = rw first-level (
      add_qty-total b (b.order_pool.size + 1) e.first e.first e.more (order b e.first).qty v.ring
        v.distinct.0 (omega (arith, orders-le)) fits)

best_of-top :
    (b : MarketOrderBook) (side : Side) (es : List Entry) (p : Ptr)
    → IsSide (embed b) side es
    → p ≡ head_ptr es
    → Fits b es
    → best_of b p ≡ ok (top_of b es)
unfolding best_of
best_of-top b side [] p v e f = rw e refl
best_of-top b side (l ∷ es) p v e f =
    let there : (l.ptr == null) ≡ false = ground (arith, v.levels.0.block.positive) in
    rw e (
      rw there
        (rw (level_qty-total b side l v.levels.0 f) (rw (price-level b side l v.levels.0) refl)))

-- On a well-formed book whose best levels hold less than 2^32 each, `updateBBO` of both sides returns, and
-- the summary is the price and the whole quantity of the best bid and of the best ask, or the invalid values
-- for a side with no orders. Nothing else of the book has changed.
pub update_bbo-top_of :
    (b : MarketOrderBook) (bids asks : List Entry)
    → IsBook (embed b) Side.buy bids asks
    → Fits b bids
    → Fits b asks
    → update_bbo b true true
      ≡ ok (record b {
        bbo = record {
          bid_price = (top_of b bids).0;
          bid_qty = (top_of b bids).1;
          ask_price = (top_of b asks).0;
          ask_qty = (top_of b asks).1;
        };
      })
unfolding update_bbo update_bid update_ask embed order best
update_bbo-top_of b bids asks v f g =
    let bid = best_of-top b Side.buy bids b.bids_by_price v.own_side v.own_side.top f in
    let b1 : MarketOrderBook = record b {
      bbo = record b.bbo { bid_price = (top_of b bids).0; bid_qty = (top_of b bids).1 };
    } in
    let ask = best_of-top b1 Side.sell asks b.asks_by_price v.other_side v.other_side.top g in
    rw bid (rw ask refl)

-- An order without its links.
abbrev pub content : MarketOrder → MarketOrder
content o = record o { prev_order = null; next_order = null }
