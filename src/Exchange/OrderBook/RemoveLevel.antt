-- ===== src/Exchange/OrderBook/RemoveLevel.antt =====
-- `removeOrdersAtPrice` of exchange/matcher/me_order_book.h, and `removeOrder` for the only order of a
-- level.
use low_latency_trading_syst.Prelude.{
  ℕ, ◌≡◌, ◌≢◌, true, false, ◌==◌, if◌then◌else◌, arith, ap, ◌∙◌, sym, ok, update,
}
use low_latency_trading_syst.Ring.Chain.{has, All-has}
use low_latency_trading_syst.Ring.Change.{Bridged}
use low_latency_trading_syst.Common.Types.{Price, Side}
use low_latency_trading_syst.Common.MemPool.Defs.{Ptr, null, deref}
use low_latency_trading_syst.Common.MemPool.Laws.{deallocate_lem}
use low_latency_trading_syst.Exchange.OrderBook.State.{
  MeOrderBook, MeOrdersAtPrice, order, level, best, get_orders_at_price, set_orders_at_price,
  price_to_index,
}
use low_latency_trading_syst.Exchange.OrderBook.Levels.{unlink_level, remove_orders_at_price}
use low_latency_trading_syst.Exchange.OrderBook.Shape.{
  Entry, orders, InUse, IsOrder, IsLevel, next_entry_of, prev_entry_of, flip, IsTrading,
}
use low_latency_trading_syst.Exchange.OrderBook.Frame.{
  Dropped, IsOrder-Dropped, IsLevel-frame, level-same,
}
use low_latency_trading_syst.Exchange.OrderBook.RemoveOne.{Elsewhere}

-- A level without its links.
abbrev pub level_content : MeOrdersAtPrice → MeOrdersAtPrice
level_content l = record l { prev_entry = null; next_entry = null }

-- The level at `p`, of price `price`, is out of the price map and out of the pool. Links of levels
-- and the best pointers may differ too, and nothing else.
pub record LevelDropped (b b' : MeOrderBook) (price : Price) (p : Ptr) : Type 0 where
  pub order_pool : b'.order_pool ≡ b.order_pool
  pub clients : b'.cid_oid_to_order ≡ b.cid_oid_to_order
  pub sent : b'.sent ≡ b.sent
  pub next_id : b'.next_market_order_id ≡ b.next_market_order_id
  pub contents : (q : Ptr) → level_content (level b' q) ≡ level_content (level b q)
  pub level_free :
      (q : Ptr)
      → q ≢ p
      → (b'.orders_at_price_pool.store q).is_free ≡ (b.orders_at_price_pool.store q).is_free
  pub freed : (b'.orders_at_price_pool.store p).is_free ≡ true
  pub level_size : b'.orders_at_price_pool.size ≡ b.orders_at_price_pool.size
  pub level_next_free :
      b'.orders_at_price_pool.next_free_index ≡ b.orders_at_price_pool.next_free_index
  pub slots :
      (i : ℕ)
      → b'.price_orders_at_price i
        ≡ (if i == price_to_index price then null else b.price_orders_at_price i)

-- What becomes of the ring of levels and of the best pointers.
pub record LevelUnlinked (b b' : MeOrderBook) (side : Side) (p : Ptr) : Type 0 where
  pub bridged :
      prev_entry_of b p ≢ p
      → next_entry_of b p ≢ p
      → Bridged
          (next_entry_of b)
          (prev_entry_of b)
          (next_entry_of b')
          (prev_entry_of b')
          (prev_entry_of b p)
          p
          (next_entry_of b p)
  pub alone : next_entry_of b p ≡ p → best b' side ≡ null
  pub top :
      next_entry_of b p ≢ p
      → best b' side ≡ (if p == best b side then next_entry_of b p else best b side)
  pub other_top : best b' (flip side) ≡ best b (flip side)
  pub next_same : (q : Ptr) → q ≢ p → q ≢ prev_entry_of b p → next_entry_of b' q ≡ next_entry_of b q
  pub prev_same : (q : Ptr) → q ≢ p → q ≢ next_entry_of b p → prev_entry_of b' q ≡ prev_entry_of b q

module _ (b : MeOrderBook) (side : Side) (price : Price) (p : Ptr) (trading : IsTrading side)
    (found : get_orders_at_price b price ≡ p) (live : InUse b.orders_at_price_pool p) where
  pub unlinked : MeOrderBook
  unfolding unlink_level set_orders_at_price
  unlinked = set_orders_at_price (unlink_level b side p) price null

  pub removed : MeOrderBook
  unfolding unlinked
  removed = record unlinked {
    orders_at_price_pool = record unlinked.orders_at_price_pool {
      store =
          update unlinked.orders_at_price_pool.store p
            (record (unlinked.orders_at_price_pool.store p) { is_free = true });
    };
  }

  unlinked_block :
      ((unlinked.orders_at_price_pool.store p).is_free ≡ false)
      × (unlinked.orders_at_price_pool.size ≡ b.orders_at_price_pool.size)
  unfolding unlinked update
  unlinked_block = ground (arith, live)

  pub remove_orders_at_price-ok : remove_orders_at_price b side price ≡ ok removed
  unfolding remove_orders_at_price removed
  remove_orders_at_price-ok = ground (
    arith,
    found,
    deallocate_lem unlinked.orders_at_price_pool p live.positive
        (omega (arith, live.in_pool, unlinked_block.1)) unlinked_block.0,
  )

  pub remove_orders_at_price-LevelDropped : LevelDropped b removed price p
  unfolding removed update
  remove_orders_at_price-LevelDropped = record {
    order_pool = ground arith;
    clients = ground arith;
    sent = ground arith;
    next_id = ground arith;
    contents = λ q. ground arith;
    level_free = λ q ne. ground arith;
    freed = ground arith;
    level_size = ground arith;
    level_next_free = ground arith;
    slots = λ i. ground arith;
  }

  pub remove_orders_at_price-LevelUnlinked : LevelUnlinked b removed side p
  unfolding removed update
  remove_orders_at_price-LevelUnlinked = record {
    bridged = λ h k. record {
      next_u = ground arith;
      prev_w = ground arith;
      next_same = λ q hq kq. ground arith;
      prev_same = λ q hq kq. ground arith;
    };
    alone = λ e. ground arith;
    top = λ ne. ground arith;
    other_top = ground (arith, trading);
    next_same = λ q h k. ground arith;
    prev_same = λ q h k. ground arith;
  }

module _ (b b1 b' : MeOrderBook) (side : Side) (ptr p : Ptr) (price : Price)
    (l : LevelDropped b b1 price ptr) (d : Dropped b1 b' p) (at_ptr : (level b ptr).side ≡ side)
    (of_price : (level b ptr).price ≡ price) (mapped : get_orders_at_price b price ≡ ptr)
    (here : IsOrder b side price p) where
  same_order : (q : Ptr) → order b' q ≡ order b q
  unfolding order
  same_order q = d.same_orders q ∙ ap (λ pool. deref pool q) l.order_pool

  same_level : (q : Ptr) → level_content (level b' q) ≡ level_content (level b q)
  same_level q = ap level_content (level-same b1 b' q d.level_pool) ∙ l.contents q

  same_slot :
      (pr : Price) (q : Ptr)
      → q ≢ ptr
      → get_orders_at_price b pr ≡ q
      → get_orders_at_price b' pr ≡ q
  unfolding get_orders_at_price
  same_slot pr q ne e = ground (arith, d.prices, l.slots (price_to_index pr), e, ne, mapped)

  kept-IsOrder : (q : Ptr) → q ≢ p → (s : Side) (pr : Price) → IsOrder b s pr q → IsOrder b' s pr q
  kept-IsOrder q ne s pr h =
      let key = at_b1 p in
      IsOrder-Dropped s pr p q d ne (ground (arith, key, l.clients, here.mapped)) (still q s pr h)
    where
      at_b1 : (r : Ptr) → order b1 r ≡ order b r
      at_b1 r = unfold order in ap (λ pool. deref pool r) l.order_pool

      still : (r : Ptr) (s' : Side) (pr' : Price) → IsOrder b s' pr' r → IsOrder b1 s' pr' r
      still r s' pr' g = ground (arith, g, at_b1 r, l.order_pool, l.clients)

  -- Every other level stays as it was.
  pub IsLevel-Elsewhere :
      (s : Side) (f : Entry) → Elsewhere side price s f → IsLevel b s f → IsLevel b' s f
  IsLevel-Elsewhere s f apart lf =
      let member = λ (q : Ptr) (m : has q (orders f) ≡ true).
        All-has (IsOrder b s f.price) q (orders f) lf.members m in
      let ne : f.ptr ≢ ptr = ground (arith, apart, lf, at_ptr, of_price) in
      let block : InUse b'.orders_at_price_pool f.ptr =
        ground (arith, lf.block, l.level_free f.ptr, l.level_size, d.level_pool) in
      IsLevel-frame b b' s f block (ap (λ v. v.side) (same_level f.ptr))
        (ap (λ v. v.price) (same_level f.ptr)) (ap (λ v. v.first_me_order) (same_level f.ptr))
        (same_slot f.price f.ptr ne lf.mapped ∙ sym lf.mapped)
        (λ q m. ap (λ o. o.next_order) (same_order q))
        (λ q m. ap (λ o. o.prev_order) (same_order q))
        (λ q m h. kept-IsOrder q (ground (arith, apart, h, here)) s f.price h) lf
