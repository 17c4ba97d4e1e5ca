-- ===== src/Exchange/OrderBook/Remove/Level.antt =====
-- `removeOrder` of exchange/matcher/me_order_book.h on a well-formed book, for the only order of a
-- level: the level goes with it.
use low_latency_trading_syst.Prelude.{
  ℕ, ◌≡◌, ◌≢◌, true, ◌==◌, if◌then◌else◌, arith, List, [], ◌∷◌, ◌++◌, All, All-append, inl, inr, ap,
  ◌∙◌, sym, subst,
}
use low_latency_trading_syst.Ring.Chain.{
  has, has-append, has-erase_ne, erase, Distinct, IsRing, IsRing-frame, IsRing-has_any,
}
use low_latency_trading_syst.Ring.Change.{head_or_null, head-erase, IsRing-erase_any}
use low_latency_trading_syst.Common.Types.{Price, Side}
use low_latency_trading_syst.Common.MemPool.Defs.{Ptr, null, addr, deref}
use low_latency_trading_syst.Common.MemPool.Laws
use low_latency_trading_syst.Exchange.OrderBook.State.{
  MeOrderBook, order, level, best, price_to_index,
}
use low_latency_trading_syst.Exchange.OrderBook.Shape.{
  Entry, ptrs, all_orders, head_ptr, IsLevel, IsSide, IsBook, flip, next_entry_of, prev_entry_of,
}
use low_latency_trading_syst.Exchange.OrderBook.Sides.{
  Sorted-apart_before, Sorted-apart_behind, Sorted-without, ptrs-append, Distinct-ptrs, erase-ptrs,
  has-ptrs, not-has-ptrs, head_ptr-ptrs, level-side, has-all_orders, has-all_orders_without,
  All-append_left, All-append_right, All-both, All-map,
}
use low_latency_trading_syst.Exchange.OrderBook.Frame.{Dropped, level-same, best-same}
use low_latency_trading_syst.Exchange.OrderBook.RemoveOne.{Elsewhere}
use low_latency_trading_syst.Exchange.OrderBook.RemoveLevel.{
  LevelDropped, LevelUnlinked, IsLevel-Elsewhere,
}
use low_latency_trading_syst.Exchange.OrderBook.Remove.Order.{flip-ne}

module _ (b b1 b' : MeOrderBook) (side : Side) (pre : List Entry) (ptr : Ptr) (price : Price)
    (p : Ptr) (post other : List Entry) where
  abbrev entry : Entry
  entry = record { ptr = ptr; price = price; first = p; more = [] }

  module _ (v : IsBook b side (pre ++ entry ∷ post) other) (l : LevelDropped b b1 price ptr)
      (u : LevelUnlinked b b1 side ptr) (d : Dropped b1 b' p) where
    at_entry : IsLevel b side entry
    at_entry = (All-append_right (IsLevel b side) pre (entry ∷ post) v.own_side.levels).0

    stays : (s : Side) (f : Entry) → Elsewhere side price s f → IsLevel b s f → IsLevel b' s f
    stays =
        IsLevel-Elsewhere b b1 b' side ptr p price l d at_entry.on_side at_entry.at_price
          at_entry.mapped at_entry.members.0

    same_links : (q : Ptr) → level b' q ≡ level b1 q
    same_links q = level-same b1 b' q d.level_pool

    same_top : (s : Side) → best b' s ≡ best b1 s
    same_top s = best-same b1 b' s d.bids d.asks

    apart_before : All (λ f. f.price ≢ price) pre
    apart_before = Sorted-apart_before side pre entry post v.own_side.sorted

    apart_behind : All (λ f. f.price ≢ price) post
    apart_behind = Sorted-apart_behind side pre entry post v.own_side.sorted

    levels_before : All (IsLevel b side) pre
    levels_before = All-append_left (IsLevel b side) pre (entry ∷ post) v.own_side.levels

    levels_behind : All (IsLevel b side) post
    levels_behind = (All-append_right (IsLevel b side) pre (entry ∷ post) v.own_side.levels).1

    own_levels : All (IsLevel b' side) (pre ++ post)
    own_levels =
        let move =
          λ (f : Entry) (lf : IsLevel b side f) (ne : f.price ≢ price). stays side f (inr ne) lf in
        All-append (IsLevel b' side) pre post
          (All-both (IsLevel b side) (λ f. f.price ≢ price) (IsLevel b' side) pre move levels_before
            apart_before)
          (All-both (IsLevel b side) (λ f. f.price ≢ price) (IsLevel b' side) post move
            levels_behind apart_behind)

    distinct : Distinct (ptrs (pre ++ entry ∷ post))
    distinct = Distinct-ptrs b side (pre ++ entry ∷ post) v.own_side.levels v.own_side.sorted

    erased : erase ptr (ptrs (pre ++ entry ∷ post)) ≡ ptrs (pre ++ post)
    erased =
        erase-ptrs pre entry post
          (not-has-ptrs b side pre ptr price at_entry.at_price levels_before apart_before)

    own-IsRing : IsRing (next_entry_of b') (prev_entry_of b') (ptrs (pre ++ post))
    own-IsRing =
        subst (λ xs. IsRing (next_entry_of b') (prev_entry_of b') xs) erased
          (IsRing-frame (next_entry_of b1) (prev_entry_of b1) (next_entry_of b') (prev_entry_of b')
            (erase ptr (ptrs (pre ++ entry ∷ post))) (λ q _. ap (λ x. x.next_entry) (same_links q))
            (λ q _. ap (λ x. x.prev_entry) (same_links q))
            (IsRing-erase_any (next_entry_of b) (prev_entry_of b) (next_entry_of b1)
              (prev_entry_of b1) ptr (ptrs (pre ++ entry ∷ post)) u.bridged v.own_side.ring
              (has-ptrs pre entry post) distinct))

    own_top : best b' side ≡ head_ptr (pre ++ post)
    own_top =
        let es = pre ++ entry ∷ post in
        let first = v.own_side.top ∙ head_ptr-ptrs es in
        same_top side
        ∙ head-erase (next_entry_of b) (prev_entry_of b) (next_entry_of b1) (prev_entry_of b1) ptr
            (ptrs es) (best b1 side) u.alone
            (subst
              (λ t.
                next_entry_of b ptr ≢ ptr
                → best b1 side ≡ (if ptr == t then next_entry_of b ptr else t))
              first u.top)
            v.own_side.ring (has-ptrs pre entry post) distinct
        ∙ ap head_or_null erased
        ∙ sym (head_ptr-ptrs (pre ++ post))

    own_side : IsSide b' side (pre ++ post)
    own_side = record {
      top = own_top;
      ring = own-IsRing;
      sorted = Sorted-without side pre entry post v.own_side.sorted;
      levels = own_levels;
    }

    -- Levels of the other side are other levels.
    foreign : (q r : Ptr) → has q (ptrs other) ≡ true → (level b r).side ≡ side → q ≢ r
    foreign q r m h =
        let there = level-side b (flip side) other q v.other_side.levels m in
        ground (arith, there, h, flip-ne side v.trading)

    neighbours :
        ((level b (prev_entry_of b ptr)).side ≡ side)
        × ((level b (next_entry_of b ptr)).side ≡ side)
    neighbours =
        let es = pre ++ entry ∷ post in
        let near =
          IsRing-has_any (next_entry_of b) (prev_entry_of b) (ptrs es) ptr v.own_side.ring
            (has-ptrs pre entry post) in
        (
          level-side b side es (prev_entry_of b ptr) v.own_side.levels near.0,
          level-side b side es (next_entry_of b ptr) v.own_side.levels near.1,
        )

    other_side : IsSide b' (flip side) other
    other_side = record {
      top = same_top (flip side) ∙ u.other_top ∙ v.other_side.top;
      ring =
          IsRing-frame (next_entry_of b) (prev_entry_of b) (next_entry_of b') (prev_entry_of b')
            (ptrs other)
            (λ q m.
              ap (λ x. x.next_entry) (same_links q)
              ∙ u.next_same q (foreign q ptr m at_entry.on_side)
                  (foreign q (prev_entry_of b ptr) m neighbours.0))
            (λ q m.
              ap (λ x. x.prev_entry) (same_links q)
              ∙ u.prev_same q (foreign q ptr m at_entry.on_side)
                  (foreign q (next_entry_of b ptr) m neighbours.1))
            v.other_side.ring;
      sorted = v.other_side.sorted;
      levels =
          All-map (IsLevel b (flip side)) (IsLevel b' (flip side)) other
            (λ f lf. stays (flip side) f (inl (flip-ne side v.trading)) lf) v.other_side.levels;
    }

    order_pool : Laws.IsValid b'.order_pool
    order_pool =
        let i = addr b.order_pool.next_free_index in
        ground
          (arith, v.order_pool, d.order_free i, d.freed, d.order_size, d.order_next, l.order_pool)

    level_pool : Laws.IsValid b'.orders_at_price_pool
    level_pool =
        let i = addr b.orders_at_price_pool.next_free_index in
        ground (
          arith,
          v.level_pool,
          d.level_pool,
          l.level_free i,
          l.freed,
          l.level_size,
          l.level_next_free,
        )

    same_price : (q : Ptr) → (level b' q).price ≡ (level b q).price
    same_price q = ap (λ x. x.price) (same_links q) ∙ ap (λ x. x.price) (l.contents q)

    ptr_there :
        (q : Ptr)
        → q ≢ ptr
        → has q (ptrs ((pre ++ entry ∷ post) ++ other)) ≡ true
        → has q (ptrs ((pre ++ post) ++ other)) ≡ true
    ptr_there q ne h = ground (
      arith,
      ap (has q) (ptrs-append (pre ++ entry ∷ post) other),
      ap (has q) (ptrs-append (pre ++ post) other),
      has-append q (ptrs (pre ++ entry ∷ post)) (ptrs other),
      has-append q (ptrs (pre ++ post)) (ptrs other),
      ap (has q) erased,
      has-erase_ne q ptr (ptrs (pre ++ entry ∷ post)) ne,
    )

    slots :
        (i : ℕ)
        → b'.price_orders_at_price i ≢ null
        → (has (b'.price_orders_at_price i) (ptrs ((pre ++ post) ++ other)) ≡ true)
          × (price_to_index (level b' (b'.price_orders_at_price i)).price ≡ i)
    slots i ne =
        let q = b.price_orders_at_price i in
        let same : b'.price_orders_at_price i ≡ q =
          ground (arith, ap (λ f. f i) d.prices, l.slots i) in
        let old = v.slots i (ground arith) in
        let other_level : q ≢ ptr =
          ground (arith, ap (λ f. f i) d.prices, l.slots i, old, at_entry.at_price) in
        rw same (ptr_there q other_level old.0, ground (arith, old, same_price q))

    order_there :
        (q : Ptr)
        → q ≢ p
        → has q (all_orders ((pre ++ entry ∷ post) ++ other)) ≡ true
        → has q (all_orders ((pre ++ post) ++ other)) ≡ true
    order_there q ne h =
        ground
          (arith, has-all_orders q pre entry post other, has-all_orders_without q pre post other)

    same_order : (q : Ptr) → order b1 q ≡ order b q
    unfolding order
    same_order q = ap (λ pool. deref pool q) l.order_pool

    clients :
        (c o : ℕ)
        → b'.cid_oid_to_order c o ≢ null
        → (has (b'.cid_oid_to_order c o) (all_orders ((pre ++ post) ++ other)) ≡ true)
          × ((order b' (b'.cid_oid_to_order c o)).client_id ≡ c)
          × ((order b' (b'.cid_oid_to_order c o)).client_order_id ≡ o)
    clients c o ne =
        let q = b.cid_oid_to_order c o in
        let was = ap (λ f. f c o) l.clients in
        let same : b'.cid_oid_to_order c o ≡ q = ground (arith, d.clients c o, was) in
        let old = v.clients c o (ground arith) in
        let other_order : q ≢ p = ground (arith, d.clients c o, same_order p, old) in
        rw same (
          order_there q other_order old.0,
          ground (arith, old, d.same_orders q, same_order q),
          ground (arith, old, d.same_orders q, same_order q),
        )

    -- The book is well formed without the level.
    pub IsBook-without : IsBook b' side (pre ++ post) other
    IsBook-without = record {
      trading = v.trading;
      own_side = own_side;
      other_side = other_side;
      order_pool = order_pool;
      level_pool = level_pool;
      slots = slots;
      clients = clients;
    }
