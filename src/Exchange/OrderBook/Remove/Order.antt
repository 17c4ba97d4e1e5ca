-- ===== src/Exchange/OrderBook/Remove/Order.antt =====
-- `removeOrder` of exchange/matcher/me_order_book.h on a well-formed book, for an order that is not
-- alone at its level.
use low_latency_trading_syst.Prelude.{
  ℕ, ◌≡◌, ◌≢◌, refl, true, arith, List, [], ◌∷◌, ◌++◌, All, All-append, inl, inr, ap, ◌∙◌, sym,
  subst,
}
use low_latency_trading_syst.Ring.Chain.{has, has-erase_ne, IsRing, IsRing-frame}
use low_latency_trading_syst.Common.Types.{Price, Side}
use low_latency_trading_syst.Common.MemPool.Defs.{Ptr, null, addr}
use low_latency_trading_syst.Common.MemPool.Laws
use low_latency_trading_syst.Exchange.OrderBook.State.{
  MeOrderBook, order, level, best, price_to_index,
}
use low_latency_trading_syst.Exchange.OrderBook.Orders.{unlink_order}
use low_latency_trading_syst.Exchange.OrderBook.Shape.{
  Entry, orders, ptrs, all_orders, head_ptr, IsLevel, IsSide, IsBook, IsTrading, flip,
  next_entry_of, prev_entry_of,
}
use low_latency_trading_syst.Exchange.OrderBook.Sides.{
  Sorted-apart_before, Sorted-apart_behind, Sorted-replace, ptrs-replace, ptrs-append,
  has-all_orders, All-append_left, All-append_right, All-both, All-map,
}
use low_latency_trading_syst.Exchange.OrderBook.Frame.{LinksOnly, Dropped, level-same, best-same}
use low_latency_trading_syst.Exchange.OrderBook.Unlink.{unlink_order-LinksOnly}
use low_latency_trading_syst.Exchange.OrderBook.RemoveOne.{
  Elsewhere, without, orders-without, IsLevel-without, IsLevel-Elsewhere,
}

pub flip-ne : (side : Side) → IsTrading side → flip side ≢ side
flip-ne Side.buy t = λ e. cc
flip-ne Side.sell t = λ e. cc
flip-ne Side.invalid t = absurd t
flip-ne Side.max t = absurd t

module _ (b b' : MeOrderBook) (side : Side) (pre : List Entry) (ptr : Ptr) (price : Price)
    (first y : Ptr) (ys : List Ptr) (post other : List Entry) (p : Ptr) where
  abbrev entry : Entry
  entry = record { ptr = ptr; price = price; first = first; more = y ∷ ys }

  abbrev left : Entry
  left = without p entry y ys

  module _ (v : IsBook b side (pre ++ entry ∷ post) other) (here : has p (orders entry) ≡ true)
      (d : Dropped (unlink_order b ptr p) b' p) where
    links : LinksOnly b (unlink_order b ptr p)
    links = unlink_order-LinksOnly b ptr p

    at_entry : IsLevel b side entry
    at_entry = (All-append_right (IsLevel b side) pre (entry ∷ post) v.own_side.levels).0

    stays : (s : Side) (f : Entry) → Elsewhere side price s f → IsLevel b s f → IsLevel b' s f
    stays = IsLevel-Elsewhere b b' side ptr price first y ys p at_entry here d

    same_top : (s : Side) → best b' s ≡ best b s
    same_top s = best-same b b' s (d.bids ∙ links.bids) (d.asks ∙ links.asks)

    same_next : (q : Ptr) → next_entry_of b' q ≡ next_entry_of b q
    same_next q =
        ap (λ l. l.next_entry) (level-same (unlink_order b ptr p) b' q d.level_pool)
        ∙ links.level_next q

    same_prev : (q : Ptr) → prev_entry_of b' q ≡ prev_entry_of b q
    same_prev q =
        ap (λ l. l.prev_entry) (level-same (unlink_order b ptr p) b' q d.level_pool)
        ∙ links.level_prev q

    own_levels : All (IsLevel b' side) (pre ++ left ∷ post)
    own_levels =
        let all = v.own_side.levels in
        let sorted = v.own_side.sorted in
        let move =
          λ (f : Entry) (l : IsLevel b side f) (ne : f.price ≢ price). stays side f (inr ne) l in
        All-append (IsLevel b' side) pre (left ∷ post)
          (All-both (IsLevel b side) (λ f. f.price ≢ price) (IsLevel b' side) pre move
            (All-append_left (IsLevel b side) pre (entry ∷ post) all)
            (Sorted-apart_before side pre entry post sorted))
          (
            IsLevel-without b b' side ptr price first y ys p at_entry here d,
            All-both (IsLevel b side) (λ f. f.price ≢ price) (IsLevel b' side) post move
                (All-append_right (IsLevel b side) pre (entry ∷ post) all).1
                (Sorted-apart_behind side pre entry post sorted),
          )

    head_same : (l : List Entry) → head_ptr (l ++ left ∷ post) ≡ head_ptr (l ++ entry ∷ post)
    head_same [] = refl
    head_same (x ∷ xs) = refl

    own_side : IsSide b' side (pre ++ left ∷ post)
    own_side = record {
      top = same_top side ∙ v.own_side.top ∙ sym (head_same pre);
      ring =
          subst (λ l. IsRing (next_entry_of b') (prev_entry_of b') l)
            (sym (ptrs-replace pre entry left post refl))
            (IsRing-frame (next_entry_of b) (prev_entry_of b) _ _ (ptrs (pre ++ entry ∷ post))
              (λ q _. same_next q) (λ q _. same_prev q) v.own_side.ring);
      sorted = Sorted-replace side pre entry left post refl v.own_side.sorted;
      levels = own_levels;
    }

    other_side : IsSide b' (flip side) other
    other_side = record {
      top = same_top (flip side) ∙ v.other_side.top;
      ring =
          IsRing-frame (next_entry_of b) (prev_entry_of b) _ _ (ptrs other) (λ q _. same_next q)
            (λ q _. same_prev q) v.other_side.ring;
      sorted = v.other_side.sorted;
      levels =
          All-map (IsLevel b (flip side)) (IsLevel b' (flip side)) other
            (λ f l. stays (flip side) f (inl (flip-ne side v.trading)) l) v.other_side.levels;
    }

    same_ptrs : ptrs ((pre ++ left ∷ post) ++ other) ≡ ptrs ((pre ++ entry ∷ post) ++ other)
    same_ptrs =
        ptrs-append (pre ++ left ∷ post) other
        ∙ ap (λ l. l ++ ptrs other) (ptrs-replace pre entry left post refl)
        ∙ sym (ptrs-append (pre ++ entry ∷ post) other)

    still_there :
        (q : Ptr)
        → q ≢ p
        → has q (all_orders ((pre ++ entry ∷ post) ++ other)) ≡ true
        → has q (all_orders ((pre ++ left ∷ post) ++ other)) ≡ true
    still_there q ne h = ground (
      arith,
      has-all_orders q pre entry post other,
      has-all_orders q pre left post other,
      ap (has q) (orders-without p entry y ys),
      has-erase_ne q p (orders entry) ne,
    )

    order_pool : Laws.IsValid b'.order_pool
    order_pool =
        let i = addr b.order_pool.next_free_index in
        ground (
          arith,
          v.order_pool,
          d.order_free i,
          d.freed,
          d.order_size,
          d.order_next,
          links.order_free i,
          links.order_size,
          links.order_next,
        )

    level_pool : Laws.IsValid b'.orders_at_price_pool
    level_pool =
        let i = addr b.orders_at_price_pool.next_free_index in
        ground (
          arith,
          v.level_pool,
          d.level_pool,
          links.level_free i,
          links.level_size,
          links.level_next_free,
        )

    same_price : (q : Ptr) → (level b' q).price ≡ (level b q).price
    same_price q =
        ap (λ l. l.price) (level-same (unlink_order b ptr p) b' q d.level_pool)
        ∙ links.level_price q

    slots :
        (i : ℕ)
        → b'.price_orders_at_price i ≢ null
        → (has (b'.price_orders_at_price i) (ptrs ((pre ++ left ∷ post) ++ other)) ≡ true)
          × (price_to_index (level b' (b'.price_orders_at_price i)).price ≡ i)
    slots i ne =
        let same = ap (λ f. f i) (d.prices ∙ links.prices) in
        let old = v.slots i (ground arith) in
        (rw (same, same_ptrs) old.0, rw (same, same_price (b.price_orders_at_price i)) old.1)

    clients :
        (c o : ℕ)
        → b'.cid_oid_to_order c o ≢ null
        → (has (b'.cid_oid_to_order c o) (all_orders ((pre ++ left ∷ post) ++ other)) ≡ true)
          × ((order b' (b'.cid_oid_to_order c o)).client_id ≡ c)
          × ((order b' (b'.cid_oid_to_order c o)).client_order_id ≡ o)
    clients c o ne =
        let q = b.cid_oid_to_order c o in
        let was = ap (λ f. f c o) links.clients in
        let same : b'.cid_oid_to_order c o ≡ q = ground (arith, d.clients c o, was) in
        let old = v.clients c o (ground arith) in
        let other_order : q ≢ p = ground (arith, d.clients c o, links.contents p, old) in
        rw same (
          still_there q other_order old.0,
          ground (arith, old, d.same_orders q, links.contents q),
          ground (arith, old, d.same_orders q, links.contents q),
        )

    -- The book is well formed without the order.
    pub IsBook-without : IsBook b' side (pre ++ left ∷ post) other
    IsBook-without = record {
      trading = v.trading;
      own_side = own_side;
      other_side = other_side;
      order_pool = order_pool;
      level_pool = level_pool;
      slots = slots;
      clients = clients;
    }
