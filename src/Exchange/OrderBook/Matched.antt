-- ===== src/Exchange/OrderBook/Matched.antt =====
-- `checkForMatch` of exchange/matcher/me_order_book.cpp: total, and what it makes of the book.
use low_latency_trading_syst.Prelude.{
  ℕ, ◌+◌, ◌-◌, ◌≤◌, min, ◌≡◌, refl, true, false, ◌||◌, ◌==◌, arith, List, [], ◌∷◌, ◌++◌, sym, subst,
  ok, All, All-append, Bool-cases, inl, inr, if◌then◌else◌, length,
}
use low_latency_trading_syst.Ring.Bound.{Within, length-le-bound}
use low_latency_trading_syst.Common.Types.{Side, Qty, is_buy, is_sell}
use low_latency_trading_syst.Exchange.OrderBook.State.{
  MeOrder, MeOrderBook, Message, response, market,
}
use low_latency_trading_syst.Exchange.OrderBook.Matching.{
  Aggressor, narrowed, too_far, check_for_match,
}
use low_latency_trading_syst.Exchange.OrderBook.Shape.{
  Entry, orders, all_orders, IsOrder, IsLevel, IsBook, IsTrading, flip,
}
use low_latency_trading_syst.Exchange.OrderBook.Frame.{All-frame}
use low_latency_trading_syst.Exchange.OrderBook.Sides.{Distinct-all_orders}
use low_latency_trading_syst.Exchange.OrderBook.Spec.{
  resting, sweep, sweep_empty, sweep_stop, sweep_gone, sweep_left,
}
use low_latency_trading_syst.Exchange.OrderBook.Sweep.{Swept, swept}

Within-all_orders :
    (b : MeOrderBook) (side : Side) (es : List Entry)
    → All (IsLevel b side) es
    → All (Within b.order_pool.size) (all_orders es)
Within-all_orders b side [] l = tt
Within-all_orders b side (e ∷ es) l =
    All-append (Within b.order_pool.size) (orders e) (all_orders es)
      (All-frame (IsOrder b side e.price) (Within b.order_pool.size) (orders e)
        (λ q _ o. (o.block.positive, o.block.in_pool)) l.0.members)
      (Within-all_orders b side es l.1)

-- Live orders of a side are at most as many as the blocks of the pool.
pub length-orders-le :
    {b : MeOrderBook} {side : Side} {es other : List Entry}
    → IsBook b side es other
    → length (all_orders es) ≤ b.order_pool.size
length-orders-le {b} {side} {es} v =
    length-le-bound b.order_pool.size (all_orders es)
      (Distinct-all_orders b side es v.own_side.levels v.own_side.sorted)
      (Within-all_orders b side es v.own_side.levels)

-- On a well-formed book, `checkForMatch` returns. What is left of the order, the resting orders of
-- the other side and the messages are those of matching by price and time, in which the order goes by
-- the low 32 bits of its id; the order's own side is as it was, and the book is well formed.
pub check_for_match-sweep :
    (b : MeOrderBook) (a : Aggressor) (side : Side) (es other : List Entry) (qty : Qty)
    → a.side ≡ flip side
    → IsBook b side es other
    → Swept b side other (check_for_match b a qty) (sweep (narrowed a) qty (resting b es))
unfolding check_for_match
check_for_match-sweep b a side es other qty h v =
    let trades : (is_buy a.side || is_sell a.side) ≡ true = rw h (trading side v.trading) in
    rw trades (
      swept (narrowed a) (b.order_pool.size + 1) b side es other qty h v
        (omega (arith, length-orders-le v)))
  where
    trading : (s : Side) → IsTrading s → (is_buy (flip s) || is_sell (flip s)) ≡ true
    trading Side.buy t = refl
    trading Side.sell t = refl
    trading Side.invalid t = absurd t
    trading Side.max t = absurd t

-- The quantity that the messages fill for an order of the exchange.
pub executed : ℕ → List Message → ℕ
executed id [] = 0
executed id (market u ∷ ms) = executed id ms
executed id (response r ∷ ms) = (if r.market_order_id == id then r.exec_qty else 0) + executed id ms

pub total_qty : List MeOrder → ℕ
total_qty [] = 0
total_qty (o ∷ os) = o.qty + total_qty os

abbrev pub Foreign : ℕ → List MeOrder → Type 0
Foreign id [] = Unit
Foreign id (o ∷ os) = ((o.market_order_id == id) ≡ false) × Foreign id os

-- Matching conserves quantity: what the aggressive order has been filled for and what it has left are
-- its quantity, and the other side has lost just what was filled.
conserved :
    (a : Aggressor) (leaves : Qty) (os : List MeOrder)
    → Foreign a.market_order_id os
    → let s = sweep a leaves os in
      (executed a.market_order_id s.messages + s.leaves ≡ leaves)
      × (total_qty s.book + executed a.market_order_id s.messages ≡ total_qty os)
unfolding executed total_qty
conserved a leaves [] f = rw (sweep_empty a leaves) (omega arith, omega arith)
conserved a leaves (o ∷ os) f = elim (Bool-cases (leaves == 0 || too_far a.side a.price o.price)) [
  | inl stop ↦ rw (sweep_stop a leaves o os stop) (omega arith, omega arith)
  | inr more ↦ elim (Bool-cases (o.qty - min leaves o.qty == 0)) [
    | inl gone ↦ rw (sweep_gone a leaves o os more gone) (
      ground (arith, conserved a (leaves - min leaves o.qty) os f.1),
      ground (arith, conserved a (leaves - min leaves o.qty) os f.1),
    )
    | inr left ↦ rw (sweep_left a leaves o os more left) (ground arith, ground arith)
  ]
]

-- On a well-formed book, when the low 32 bits of the aggressive order's id, by which its fills go, are the
-- id of no resting order of the other side, `checkForMatch` returns and conserves quantity: the fills that
-- it sends for the aggressive order and the quantity that it returns add up to the order's quantity, and
-- the resting orders of the other side have lost as much as was filled.
pub check_for_match_conserves :
    (b : MeOrderBook) (a : Aggressor) (side : Side) (es other : List Entry) (qty : Qty)
    → a.side ≡ flip side
    → IsBook b side es other
    → Foreign (narrowed a).market_order_id (resting b es)
    → (leaves : Qty) × (b' : MeOrderBook) × (es' : List Entry) × (ms : List Message)
      × (check_for_match b a qty ≡ ok (leaves, b'))
      × (b'.sent ≡ b.sent ++ ms)
      × (executed (narrowed a).market_order_id ms + leaves ≡ qty)
      × (total_qty (resting b' es') + executed (narrowed a).market_order_id ms
          ≡ total_qty (resting b es))
      × IsBook b' side es' other
check_for_match_conserves b a side es other qty h v f =
    let r = check_for_match-sweep b a side es other qty h v in
    let s = sweep (narrowed a) qty (resting b es) in
    let c = conserved (narrowed a) qty (resting b es) f in
    (
      s.leaves,
      r.book,
      r.entries,
      s.messages,
      r.returns,
      r.messages,
      c.0,
      subst
          (λ l.
            total_qty l + executed (narrowed a).market_order_id s.messages
            ≡ total_qty (resting b es))
          (sym r.same_orders) c.1,
      r.valid,
    )
