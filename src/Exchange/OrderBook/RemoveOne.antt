-- ===== src/Exchange/OrderBook/RemoveOne.antt =====
-- `removeOrder` of exchange/matcher/me_order_book.h for an order that is not alone at its level.
use low_latency_trading_syst.Prelude.{
  ◌≡◌, ◌≢◌, true, ◌⊎◌, ◌==◌, if◌then◌else◌, arith, List, ◌∷◌, All, ap, ◌∙◌, sym, subst,
}
use low_latency_trading_syst.Ring.Chain.{
  has, erase, Distinct, IsRing, IsRing-frame, IsRing-ne, IsRing-has, All-has, All-erase,
  erase-Distinct, not-has-erase,
}
use low_latency_trading_syst.Ring.Change.{IsRing-erase}
use low_latency_trading_syst.Common.Types.{Price, Side}
use low_latency_trading_syst.Common.MemPool.Defs.{Ptr}
use low_latency_trading_syst.Exchange.OrderBook.State.{
  MeOrderBook, order, level, get_orders_at_price,
}
use low_latency_trading_syst.Exchange.OrderBook.Orders.{unlink_order}
use low_latency_trading_syst.Exchange.OrderBook.Shape.{
  Entry, orders, InUse, IsOrder, IsLevel, next_order_of, prev_order_of,
}
use low_latency_trading_syst.Exchange.OrderBook.Frame.{
  Dropped, IsOrder-LinksOnly, IsOrder-Dropped, All-frame, IsLevel-frame, slot-same, level-same,
}
use low_latency_trading_syst.Exchange.OrderBook.Unlink.{
  unlink_order-LinksOnly, unlink_order-Bridged, unlink_order-order, unlink_order-level,
}

-- A level of another side, or of another price.
abbrev pub Elsewhere : Side → Price → Side → Entry → Type 0
Elsewhere side price s f = (s ≢ side) ⊎ (f.price ≢ price)

-- The entry without the order at `p`, given the orders behind the first.
abbrev pub without : Ptr → Entry → Ptr → List Ptr → Entry
without p e y ys = record e {
  first = if p == e.first then y else e.first;
  more = if p == e.first then ys else erase p (y ∷ ys);
}

pub orders-without :
    (p : Ptr) (e : Entry) (y : Ptr) (ys : List Ptr)
    → orders (without p e y ys) ≡ erase p (e.first ∷ y ∷ ys)
orders-without p e y ys = ground arith

module _ (b b' : MeOrderBook) (side : Side) (ptr : Ptr) (price : Price) (first y : Ptr)
    (ys : List Ptr) (p : Ptr) where
  abbrev entry : Entry
  entry = record { ptr = ptr; price = price; first = first; more = y ∷ ys }

  module _ (l : IsLevel b side entry) (here : has p (orders entry) ≡ true)
      (d : Dropped (unlink_order b ptr p) b' p) where
    kept : (q : Ptr) → q ≢ p → (s : Side) (pr : Price) → IsOrder b s pr q → IsOrder b' s pr q
    kept q ne s pr h =
        let links = unlink_order-LinksOnly b ptr p in
        let at_p = All-has (IsOrder b side price) p (orders entry) l.members here in
        IsOrder-Dropped s pr p q d ne (ground (arith, links.contents p, links.clients, at_p.mapped))
          (IsOrder-LinksOnly s pr q links h)

    neighbours :
        (has (prev_order_of b p) (orders entry) ≡ true)
        × (has (next_order_of b p) (orders entry) ≡ true)
        × (prev_order_of b p ≢ p)
        × (next_order_of b p ≢ p)
    neighbours =
        let near = IsRing-has (next_order_of b) (prev_order_of b) first (y ∷ ys) p l.ring here in
        let ne =
          IsRing-ne (next_order_of b) (prev_order_of b) first y ys p l.ring here l.distinct in
        (near.0, near.1, ne.0, ne.1)

    levels_same : (q : Ptr) → level b' q ≡ level (unlink_order b ptr p) q
    levels_same q = level-same (unlink_order b ptr p) b' q d.level_pool

    slots_same : (pr : Price) → get_orders_at_price b' pr ≡ get_orders_at_price b pr
    slots_same pr = slot-same b b' pr (d.prices ∙ (unlink_order-LinksOnly b ptr p).prices)

    blocks_same : (q : Ptr) → InUse b.orders_at_price_pool q → InUse b'.orders_at_price_pool q
    blocks_same q u =
        let links = unlink_order-LinksOnly b ptr p in
        ground (arith, u, d.level_pool, links.level_free q, links.level_size)

    -- Orders of another level are other orders.
    apart_order :
        (s : Side) (f : Entry) (q r : Ptr)
        → Elsewhere side price s f
        → IsOrder b s f.price q
        → has r (orders entry) ≡ true
        → q ≢ r
    apart_order s f q r apart h m =
        let there = All-has (IsOrder b side price) r (orders entry) l.members m in
        ground (arith, apart, h.on_side, h.at_price, there.on_side, there.at_price)

    same_links :
        (s : Side) (f : Entry) (q : Ptr)
        → Elsewhere side price s f
        → IsOrder b s f.price q
        → order b' q ≡ order b q
    same_links s f q apart h =
        d.same_orders q
        ∙ unlink_order-order b ptr p q (apart_order s f q p apart h here)
            (apart_order s f q (prev_order_of b p) apart h neighbours.0)
            (apart_order s f q (next_order_of b p) apart h neighbours.1)

    -- Every other level stays as it was.
    pub IsLevel-Elsewhere :
        (s : Side) (f : Entry) → Elsewhere side price s f → IsLevel b s f → IsLevel b' s f
    IsLevel-Elsewhere s f apart lf =
        let member = λ (q : Ptr) (m : has q (orders f) ≡ true).
          All-has (IsOrder b s f.price) q (orders f) lf.members m in
        let same : level b' f.ptr ≡ level b f.ptr =
          levels_same f.ptr ∙ ground (arith, unlink_order-level b ptr p f.ptr, apart, lf, l) in
        IsLevel-frame b b' s f (blocks_same f.ptr lf.block) (ap (λ v. v.side) same)
          (ap (λ v. v.price) same) (ap (λ v. v.first_me_order) same) (slots_same f.price)
          (λ q m. ap (λ o. o.next_order) (same_links s f q apart (member q m)))
          (λ q m. ap (λ o. o.prev_order) (same_links s f q apart (member q m)))
          (λ q m h. kept q (apart_order s f q p apart h here) s f.price h) lf

    -- The level keeps its other orders, in order.
    pub IsLevel-without : IsLevel b' side (without p entry y ys)
    IsLevel-without =
        let b1 = unlink_order b ptr p in
        let r = unlink_order-Bridged b ptr p neighbours.2 neighbours.3 in
        let erased = sym (orders-without p entry y ys) in
        let at_level = levels_same ptr ∙ unlink_order-level b ptr p ptr in
        record {
          block = blocks_same ptr l.block;
          on_side = ground (arith, at_level, l.on_side);
          at_price = ground (arith, at_level, l.at_price);
          first = ground (arith, at_level, l.first, l.ring.0);
          mapped = slots_same price ∙ l.mapped;
          ring =
              subst (λ xs. IsRing (next_order_of b') (prev_order_of b') xs) erased
                (IsRing-frame (next_order_of b1) (prev_order_of b1) (next_order_of b')
                  (prev_order_of b') (erase p (orders entry))
                  (λ q m. ap (λ o. o.next_order) (d.same_orders q))
                  (λ q m. ap (λ o. o.prev_order) (d.same_orders q))
                  (IsRing-erase first y ys p r l.ring here l.distinct));
          distinct = subst Distinct erased (erase-Distinct p (orders entry) l.distinct);
          members = subst (All (IsOrder b' side price)) erased (
              All-frame (IsOrder b side price) (IsOrder b' side price) (erase p (orders entry))
                (λ q m.
                  kept q (λ e. ground (arith, e, m, not-has-erase p (orders entry) l.distinct)) side
                    price)
                (All-erase (IsOrder b side price) p (orders entry) l.members));
        }
