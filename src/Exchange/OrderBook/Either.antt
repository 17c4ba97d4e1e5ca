-- ===== src/Exchange/OrderBook/Either.antt =====
-- `removeOrder` of exchange/matcher/me_order_book.h for an order of either side of a well-formed book.
use low_latency_trading_syst.Prelude.{
  ◌≡◌, refl, true, false, arith, List, [], ◌∷◌, ◌++◌, ap, ◌∙◌, sym, subst, ok, Bool-cases, inl, inr,
}
use low_latency_trading_syst.Ring.Chain.{has, has-append}
use low_latency_trading_syst.Common.Types.{Side}
use low_latency_trading_syst.Common.MemPool.Defs.{Ptr}
use low_latency_trading_syst.Exchange.OrderBook.State.{MeOrderBook}
use low_latency_trading_syst.Exchange.OrderBook.Orders.{remove_order}
use low_latency_trading_syst.Exchange.OrderBook.Shape.{
  Entry, orders, ptrs, all_orders, IsSide, IsBook, IsTrading, flip,
}
use low_latency_trading_syst.Exchange.OrderBook.Sides.{ptrs-append, all_orders-append, has-IsOrder}
use low_latency_trading_syst.Exchange.OrderBook.Remove.Order.{flip-ne}
use low_latency_trading_syst.Exchange.OrderBook.Remove.Book.{Kept, remove_from, remove_order-IsBook}

flip-flip : (side : Side) → IsTrading side → flip (flip side) ≡ side
flip-flip Side.buy t = refl
flip-flip Side.sell t = refl
flip-flip Side.invalid t = absurd t
flip-flip Side.max t = absurd t

flip-IsTrading : (side : Side) → IsTrading (flip side)
flip-IsTrading Side.buy = tt
flip-IsTrading Side.sell = tt
flip-IsTrading Side.invalid = tt
flip-IsTrading Side.max = tt

swap-has : (q : Ptr) (xs ys : List Ptr) → has q (xs ++ ys) ≡ true → has q (ys ++ xs) ≡ true
swap-has q xs ys h = ground (arith, has-append q xs ys, has-append q ys xs)

-- A book may be read from its other side.
pub IsBook-flip :
    {b : MeOrderBook} {side : Side} {own other : List Entry}
    → IsBook b side own other
    → IsBook b (flip side) other own
IsBook-flip {b} {side} {own} {other} v = record {
  trading = flip-IsTrading side;
  own_side = v.other_side;
  other_side = subst (λ s. IsSide b s own) (sym (flip-flip side v.trading)) v.own_side;
  order_pool = v.order_pool;
  level_pool = v.level_pool;
  slots = λ i ne.
      let q = b.price_orders_at_price i in
      let old = v.slots i ne in
      (
        subst (λ l. has q l ≡ true) (sym (ptrs-append other own))
            (swap-has q (ptrs own) (ptrs other)
              (subst (λ l. has q l ≡ true) (ptrs-append own other) old.0)),
        old.1,
      );
  clients = λ c o ne.
      let q = b.cid_oid_to_order c o in
      let old = v.clients c o ne in
      (
        subst (λ l. has q l ≡ true) (sym (all_orders-append other own))
            (swap-has q (all_orders own) (all_orders other)
              (subst (λ l. has q l ≡ true) (all_orders-append own other) old.0)),
        old.1,
        old.2,
      );
}

remove_from-absent :
    (p : Ptr) (es : List Entry) → has p (all_orders es) ≡ false → remove_from p es ≡ es
remove_from-absent p [] h = refl
remove_from-absent p (e ∷ es) h =
    let parts = has-append p (orders e) (all_orders es) in
    let away : has p (orders e) ≡ false = ground arith in
    rw away (ap (λ l. e ∷ l) (remove_from-absent p es (ground arith)))

not-both :
    {b : MeOrderBook} {side : Side} {own other : List Entry} (q : Ptr)
    → IsBook b side own other
    → has q (all_orders own) ≡ true
    → has q (all_orders other) ≡ false
not-both {b} {side} {own} {other} q v h = elim (Bool-cases (has q (all_orders other))) [
  | inl there ↦
      let (_, mine, _) = has-IsOrder b side own q v.own_side.levels h in
      let (_, theirs, _) = has-IsOrder b (flip side) other q v.other_side.levels there in
      absurd (flip-ne side v.trading (sym theirs.on_side ∙ mine.on_side))
  | inr away ↦ away
]

-- `removeOrder` of a live order of either side.
pub remove_either :
    (b : MeOrderBook) (side : Side) (own other : List Entry) (q : Ptr)
    → IsBook b side own other
    → has q (all_orders (own ++ other)) ≡ true
    → (b' : MeOrderBook) × (remove_order b q ≡ ok b')
      × IsBook b' side (remove_from q own) (remove_from q other)
      × Kept b b' q
remove_either b side own other q v h = elim (Bool-cases (has q (all_orders own))) [
  | inl here ↦
      let (b', run, w, k) = remove_order-IsBook b side own other q v here in
      (
        b',
        run,
        subst (λ l. IsBook b' side (remove_from q own) l)
            (sym (remove_from-absent q other (not-both q v here))) w,
        k,
      )
  | inr away ↦
      let there : has q (all_orders other) ≡ true = ground (
        arith,
        ap (has q) (all_orders-append own other),
        has-append q (all_orders own) (all_orders other),
      ) in
      let (b', run, w, k) = remove_order-IsBook b (flip side) other own q (IsBook-flip v) there in
      let back : IsBook b' side own (remove_from q other) =
        subst (λ s. IsBook b' s own (remove_from q other)) (flip-flip side v.trading)
          (IsBook-flip w) in
      (
        b',
        run,
        subst (λ l. IsBook b' side l (remove_from q other)) (sym (remove_from-absent q own away))
            back,
        k,
      )
]
