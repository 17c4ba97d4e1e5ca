-- ===== src/Exchange/OrderBook/SameShape.antt =====
-- Changes that a well-formed book of exchange/matcher does not notice: quantities and messages.
use low_latency_trading_syst.Prelude.{◌≡◌, arith, List, ap, ◌∙◌, sym, subst}
use low_latency_trading_syst.Ring.Chain.{IsRing-frame}
use low_latency_trading_syst.Common.Types.{Price, Side}
use low_latency_trading_syst.Common.MemPool.Defs.{Ptr, addr}
use low_latency_trading_syst.Common.MemPool.Laws
use low_latency_trading_syst.Exchange.OrderBook.State.{MeOrder, MeOrderBook, order}
use low_latency_trading_syst.Exchange.OrderBook.Shape.{
  Entry, ptrs, IsOrder, IsLevel, IsSide, IsBook, flip, next_entry_of, prev_entry_of,
}
use low_latency_trading_syst.Exchange.OrderBook.Sides.{All-map}
use low_latency_trading_syst.Exchange.OrderBook.Frame.{
  IsLevel-frame, slot-same, level-same, best-same,
}

-- An order without its quantity.
abbrev pub shape_of : MeOrder → MeOrder
shape_of o = record o { qty = 0 }

pub record SameShape (b b' : MeOrderBook) : Type 0 where
  pub shapes : (q : Ptr) → shape_of (order b' q) ≡ shape_of (order b q)
  pub order_free : (q : Ptr) → (b'.order_pool.store q).is_free ≡ (b.order_pool.store q).is_free
  pub order_size : b'.order_pool.size ≡ b.order_pool.size
  pub order_next : b'.order_pool.next_free_index ≡ b.order_pool.next_free_index
  pub level_pool : b'.orders_at_price_pool ≡ b.orders_at_price_pool
  pub bids : b'.bids_by_price ≡ b.bids_by_price
  pub asks : b'.asks_by_price ≡ b.asks_by_price
  pub prices : b'.price_orders_at_price ≡ b.price_orders_at_price
  pub clients : b'.cid_oid_to_order ≡ b.cid_oid_to_order

module _ {b b' : MeOrderBook} (s : SameShape b b') where
  IsOrder-same :
      (side : Side) (price : Price) (q : Ptr) → IsOrder b side price q → IsOrder b' side price q
  IsOrder-same side price q h =
      ground (arith, h, s.shapes q, s.order_free q, s.order_size, s.clients)

  IsLevel-same : (side : Side) (e : Entry) → IsLevel b side e → IsLevel b' side e
  IsLevel-same side e l =
      IsLevel-frame b b' side e (ground (arith, l.block, s.level_pool))
        (ap (λ v. v.side) (level-same b b' e.ptr s.level_pool))
        (ap (λ v. v.price) (level-same b b' e.ptr s.level_pool))
        (ap (λ v. v.first_me_order) (level-same b b' e.ptr s.level_pool))
        (slot-same b b' e.price s.prices) (λ q m. ap (λ o. o.next_order) (s.shapes q))
        (λ q m. ap (λ o. o.prev_order) (s.shapes q)) (λ q m h. IsOrder-same side e.price q h) l

  IsSide-same : (side : Side) (es : List Entry) → IsSide b side es → IsSide b' side es
  IsSide-same side es v = record {
    top = best-same b b' side s.bids s.asks ∙ v.top;
    ring =
        IsRing-frame (next_entry_of b) (prev_entry_of b) (next_entry_of b') (prev_entry_of b')
          (ptrs es) (λ q _. ap (λ l. l.next_entry) (level-same b b' q s.level_pool))
          (λ q _. ap (λ l. l.prev_entry) (level-same b b' q s.level_pool)) v.ring;
    sorted = v.sorted;
    levels = All-map (IsLevel b side) (IsLevel b' side) es (IsLevel-same side) v.levels;
  }

  pub IsBook-same :
      (side : Side) (own other : List Entry) → IsBook b side own other → IsBook b' side own other
  IsBook-same side own other v = record {
    trading = v.trading;
    own_side = IsSide-same side own v.own_side;
    other_side = IsSide-same (flip side) other v.other_side;
    order_pool = ground (
      arith,
      v.order_pool,
      s.order_free (addr b.order_pool.next_free_index),
      s.order_size,
      s.order_next,
    );
    level_pool = subst Laws.IsValid (sym s.level_pool) v.level_pool;
    slots = λ i ne.
        let same = ap (λ f. f i) s.prices in
        let old = v.slots i (ground arith) in
        let l = ap (λ v. v.price) (level-same b b' (b.price_orders_at_price i) s.level_pool) in
        rw same (old.0, rw l old.1);
    clients = λ c o ne.
        let q = b.cid_oid_to_order c o in
        let same = ap (λ f. f c o) s.clients in
        let old = v.clients c o (ground arith) in
        rw same (old.0, ground (arith, old, s.shapes q), ground (arith, old, s.shapes q));
  }

pub SameShape-trans : {b b1 b' : MeOrderBook} → SameShape b b1 → SameShape b1 b' → SameShape b b'
SameShape-trans s t = record {
  shapes = λ q. t.shapes q ∙ s.shapes q;
  order_free = λ q. t.order_free q ∙ s.order_free q;
  order_size = t.order_size ∙ s.order_size;
  order_next = t.order_next ∙ s.order_next;
  level_pool = t.level_pool ∙ s.level_pool;
  bids = t.bids ∙ s.bids;
  asks = t.asks ∙ s.asks;
  prices = t.prices ∙ s.prices;
  clients = t.clients ∙ s.clients;
}
