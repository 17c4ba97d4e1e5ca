-- ===== src/Exchange/OrderBook/Remove/Book.antt =====
-- `removeOrder` of exchange/matcher/me_order_book.h on a well-formed book: the effect in full.
use low_latency_trading_syst.Prelude.{
  ◌≡◌, true, false, if◌then◌else◌, arith, List, [], ◌∷◌, ◌++◌, ap, ◌∙◌, sym, subst, ok,
}
use low_latency_trading_syst.Ring.Chain.{has, has-append, IsRing-ne, All-has}
use low_latency_trading_syst.Common.Types.{Price, Side}
use low_latency_trading_syst.Common.MemPool.Defs.{Ptr, null, deref, MemPool}
use low_latency_trading_syst.Exchange.OrderBook.State.{MeOrder, MeOrderBook, order}
use low_latency_trading_syst.Exchange.OrderBook.Orders.{unlink_order, remove_order}
use low_latency_trading_syst.Exchange.OrderBook.Shape.{
  Entry, orders, all_orders, IsOrder, IsLevel, IsBook, next_order_of, prev_order_of,
}
use low_latency_trading_syst.Exchange.OrderBook.Sides.{locate, All-append_right}
use low_latency_trading_syst.Exchange.OrderBook.Frame.{content, LinksOnly, Dropped}
use low_latency_trading_syst.Exchange.OrderBook.Unlink.{unlink_order-LinksOnly, drop_order-Dropped}
use low_latency_trading_syst.Exchange.OrderBook.RemoveOne.{without}
use low_latency_trading_syst.Exchange.OrderBook.RemoveLevel.{
  LevelDropped, removed, remove_orders_at_price-ok, remove_orders_at_price-LevelDropped,
  remove_orders_at_price-LevelUnlinked,
}
use low_latency_trading_syst.Exchange.OrderBook.Remove.Order
use low_latency_trading_syst.Exchange.OrderBook.Remove.Level

-- The level without an order: nothing, if it was the only one.
abbrev pub shrink : Ptr → Entry → List Ptr → List Entry
shrink p e [] = []
shrink p e (y ∷ ys) = without p e y ys ∷ []

-- A side without an order.
abbrev pub remove_from : Ptr → List Entry → List Entry
remove_from p [] = []
remove_from p (e ∷ es) = if has p (orders e) then shrink p e e.more ++ es else e ∷ remove_from p es

remove_from-located :
    (p : Ptr) (pre : List Entry) (e : Entry) (post : List Entry)
    → has p (orders e) ≡ true
    → has p (all_orders pre) ≡ false
    → remove_from p (pre ++ e ∷ post) ≡ pre ++ (shrink p e e.more ++ post)
remove_from-located p [] e post h k = rw h
remove_from-located p (x ∷ pre) e post h k =
    let apart = has-append p (orders x) (all_orders pre) in
    let away : has p (orders x) ≡ false = ground arith in
    rw away (ap (λ l. x ∷ l) (remove_from-located p pre e post h (ground arith)))

-- What a removal leaves alone besides the shape of the book.
pub record Kept (b b' : MeOrderBook) (p : Ptr) : Type 0 where
  pub contents : (q : Ptr) → content (order b' q) ≡ content (order b q)
  pub sent : b'.sent ≡ b.sent
  pub next_id : b'.next_market_order_id ≡ b.next_market_order_id
  pub size : b'.order_pool.size ≡ b.order_pool.size
  pub freed : (b'.order_pool.store p).is_free ≡ true
  pub unmapped : b'.cid_oid_to_order (order b p).client_id (order b p).client_order_id ≡ null

Kept-links : {b b1 b' : MeOrderBook} {p : Ptr} → LinksOnly b b1 → Dropped b1 b' p → Kept b b' p
Kept-links {b} {p} links d = record {
  unmapped =
      ground (arith, links.contents p, d.clients (order b p).client_id (order b p).client_order_id);
  contents = λ q. ap content (d.same_orders q) ∙ links.contents q;
  sent = d.sent ∙ links.sent;
  next_id = d.next_id ∙ links.next_id;
  size = d.order_size ∙ links.order_size;
  freed = d.freed;
}

Kept-level :
    {b b1 b' : MeOrderBook} {price : Price} {ptr p : Ptr}
    → LevelDropped b b1 price ptr
    → Dropped b1 b' p
    → Kept b b' p
unfolding order
Kept-level {b} {p} l d = record {
  unmapped = ground (
    arith,
    ap (λ pool. deref pool p) l.order_pool,
    d.clients (order b p).client_id (order b p).client_order_id,
  );
  contents = λ q. ap content (d.same_orders q ∙ ap (λ pool. deref pool q) l.order_pool);
  sent = d.sent ∙ l.sent;
  next_id = d.next_id ∙ l.next_id;
  size = d.order_size ∙ ap (λ pool. pool.size) l.order_pool;
  freed = d.freed;
}

order_of :
    {b b1 : MeOrderBook} {price : Price} {ptr : Ptr}
    → LevelDropped b b1 price ptr
    → (q : Ptr) → order b1 q ≡ order b q
unfolding order
order_of l q = ap (λ pool. deref pool q) l.order_pool

abbrev pub Removes : MeOrderBook → Side → List Entry → List Entry → Ptr → Type 0
Removes b side own other p =
    (b' : MeOrderBook) × (remove_order b p ≡ ok b') × IsBook b' side own other × Kept b b' p

module _ (b : MeOrderBook) (side : Side) (pre : List Entry) (ptr : Ptr) (price : Price)
    (first : Ptr) (post other : List Entry) (p : Ptr) where
  remove_one :
      (y : Ptr) (ys : List Ptr)
      → IsBook b side
          (pre ++ record { ptr = ptr; price = price; first = first; more = y ∷ ys } ∷ post)
          other
      → has p (first ∷ y ∷ ys) ≡ true
      → Removes b side
          (pre
            ++ without p (record { ptr = ptr; price = price; first = first; more = y ∷ ys }) y ys
              ∷ post)
          other
          p
  unfolding remove_order
  remove_one y ys v here =
      let e : Entry = record { ptr = ptr; price = price; first = first; more = y ∷ ys } in
      let l : IsLevel b side e =
        (All-append_right (IsLevel b side) pre (e ∷ post) v.own_side.levels).0 in
      let o = All-has (IsOrder b side price) p (orders e) l.members here in
      let links = unlink_order-LinksOnly b ptr p in
      let ne = IsRing-ne (next_order_of b) (prev_order_of b) first y ys p l.ring here l.distinct in
      let (b', run, d) =
        drop_order-Dropped (unlink_order b ptr p) p
          (ground (arith, o, links.order_free p, links.order_size))
          (ground (arith, o, links.contents p)) (ground (arith, o, links.contents p)) in
      (
        b',
        ground (arith, o.at_price, l.mapped, ne.0, run),
        Order.IsBook-without b b' side pre ptr price first y ys post other p v here d,
        Kept-links links d,
      )

  remove_last :
      IsBook b side (pre ++ record { ptr = ptr; price = price; first = p; more = [] } ∷ post) other
      → Removes b side (pre ++ post) other p
  unfolding remove_order
  remove_last v =
      let e : Entry = record { ptr = ptr; price = price; first = p; more = [] } in
      let l : IsLevel b side e =
        (All-append_right (IsLevel b side) pre (e ∷ post) v.own_side.levels).0 in
      let o = l.members.0 in
      let b1 = removed b side price ptr v.trading l.mapped l.block in
      let ran = remove_orders_at_price-ok b side price ptr v.trading l.mapped l.block in
      let dropped =
        remove_orders_at_price-LevelDropped b side price ptr v.trading l.mapped l.block in
      let unlinked =
        remove_orders_at_price-LevelUnlinked b side price ptr v.trading l.mapped l.block in
      let same = order_of dropped p in
      let (b', run, d) =
        drop_order-Dropped b1 p
          (ground (
            arith,
            o,
            ap (λ (pool : MemPool MeOrder). pool.store p) dropped.order_pool,
            dropped.order_pool,
          ))
          (ground (arith, o, same)) (ground (arith, o, same)) in
      (
        b',
        ground (arith, o.at_price, o.on_side, l.ring, ran, run),
        Level.IsBook-without b b1 b' side pre ptr price p post other v dropped unlinked d,
        Kept-level dropped d,
      )

at_spot :
    (b : MeOrderBook) (side : Side) (pre : List Entry) (ptr : Ptr) (price : Price) (first : Ptr)
    (more : List Ptr) (post other : List Entry) (p : Ptr)
    → let e : Entry = record { ptr = ptr; price = price; first = first; more = more } in
      IsBook b side (pre ++ e ∷ post) other
      → has p (orders e) ≡ true
      → Removes b side (pre ++ (shrink p e more ++ post)) other p
at_spot b side pre ptr price first [] post other p v h =
    let same : p ≡ first = ground arith in
    subst
      (λ f.
        IsBook b side (pre ++ record { ptr = ptr; price = price; first = f; more = [] } ∷ post)
          other
        → Removes b side (pre ++ post) other p)
      same (λ w. remove_last b side pre ptr price p post other p w) v
at_spot b side pre ptr price first (y ∷ ys) post other p v h =
    remove_one b side pre ptr price first post other p y ys v h

-- `removeOrder` of any live order: it succeeds, the book stays well formed, its side has lost that
-- order and nothing else.
pub remove_order-IsBook :
    (b : MeOrderBook) (side : Side) (own other : List Entry) (p : Ptr)
    → IsBook b side own other
    → has p (all_orders own) ≡ true
    → Removes b side (remove_from p own) other p
remove_order-IsBook b side own other p v here =
    let spot = locate p own here in
    subst (λ l. Removes b side (remove_from p l) other p) (sym spot.parts)
      (subst (λ l. Removes b side l other p)
        (sym (remove_from-located p spot.before spot.at spot.behind spot.here spot.not_before))
        (at_spot b side spot.before spot.at.ptr spot.at.price spot.at.first spot.at.more spot.behind
          other p (subst (λ l. IsBook b side l other) spot.parts v) spot.here))
