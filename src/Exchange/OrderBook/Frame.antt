-- ===== src/Exchange/OrderBook/Frame.antt =====
-- What a change of an order book of exchange/matcher leaves as it was.
use low_latency_trading_syst.Prelude.{
  ℕ, ◌≡◌, ◌≢◌, true, ◌&&◌, ◌==◌, if◌then◌else◌, arith, List, [], ◌∷◌, All, ap,
}
use low_latency_trading_syst.Ring.Chain.{has, IsRing-frame}
use low_latency_trading_syst.Common.Types.{Price, Side}
use low_latency_trading_syst.Common.MemPool.Defs.{Ptr, null, deref}
use low_latency_trading_syst.Exchange.OrderBook.State.{
  MeOrder, MeOrderBook, order, level, best, get_orders_at_price,
}
use low_latency_trading_syst.Exchange.OrderBook.Shape.{
  Entry, orders, InUse, IsOrder, IsLevel, next_order_of, prev_order_of, next_entry_of,
  prev_entry_of,
}

-- An order without its links.
abbrev pub content : MeOrder → MeOrder
content o = record o { prev_order = null; next_order = null }

-- The same orders and levels: only the links of orders and first orders may differ.
pub record LinksOnly (b b' : MeOrderBook) : Type 0 where
  pub contents : (q : Ptr) → content (order b' q) ≡ content (order b q)
  pub order_free : (q : Ptr) → (b'.order_pool.store q).is_free ≡ (b.order_pool.store q).is_free
  pub order_size : b'.order_pool.size ≡ b.order_pool.size
  pub order_next : b'.order_pool.next_free_index ≡ b.order_pool.next_free_index
  pub level_side : (q : Ptr) → (level b' q).side ≡ (level b q).side
  pub level_price : (q : Ptr) → (level b' q).price ≡ (level b q).price
  pub level_next : (q : Ptr) → next_entry_of b' q ≡ next_entry_of b q
  pub level_prev : (q : Ptr) → prev_entry_of b' q ≡ prev_entry_of b q
  pub level_free :
      (q : Ptr)
      → (b'.orders_at_price_pool.store q).is_free ≡ (b.orders_at_price_pool.store q).is_free
  pub level_size : b'.orders_at_price_pool.size ≡ b.orders_at_price_pool.size
  pub level_next_free :
      b'.orders_at_price_pool.next_free_index ≡ b.orders_at_price_pool.next_free_index
  pub bids : b'.bids_by_price ≡ b.bids_by_price
  pub asks : b'.asks_by_price ≡ b.asks_by_price
  pub prices : b'.price_orders_at_price ≡ b.price_orders_at_price
  pub clients : b'.cid_oid_to_order ≡ b.cid_oid_to_order
  pub sent : b'.sent ≡ b.sent
  pub next_id : b'.next_market_order_id ≡ b.next_market_order_id

-- The order at `p` is out of its client's map and out of the pool. Nothing else has changed.
pub record Dropped (b b' : MeOrderBook) (p : Ptr) : Type 0 where
  pub same_orders : (q : Ptr) → order b' q ≡ order b q
  pub order_free :
      (q : Ptr) → q ≢ p → (b'.order_pool.store q).is_free ≡ (b.order_pool.store q).is_free
  pub freed : (b'.order_pool.store p).is_free ≡ true
  pub order_size : b'.order_pool.size ≡ b.order_pool.size
  pub order_next : b'.order_pool.next_free_index ≡ b.order_pool.next_free_index
  pub level_pool : b'.orders_at_price_pool ≡ b.orders_at_price_pool
  pub bids : b'.bids_by_price ≡ b.bids_by_price
  pub asks : b'.asks_by_price ≡ b.asks_by_price
  pub prices : b'.price_orders_at_price ≡ b.price_orders_at_price
  pub sent : b'.sent ≡ b.sent
  pub next_id : b'.next_market_order_id ≡ b.next_market_order_id
  pub clients :
      (c o : ℕ)
      → b'.cid_oid_to_order c o ≡ (
          if (c == (order b p).client_id) && (o == (order b p).client_order_id)
          then null
          else b.cid_oid_to_order c o)

pub IsOrder-LinksOnly :
    {b b' : MeOrderBook} (side : Side) (price : Price) (q : Ptr)
    → LinksOnly b b'
    → IsOrder b side price q
    → IsOrder b' side price q
IsOrder-LinksOnly side price q s h =
    ground (arith, s.contents q, s.order_free q, s.order_size, s.clients, h)

pub IsOrder-Dropped :
    {b b' : MeOrderBook} (side : Side) (price : Price) (p q : Ptr)
    → Dropped b b' p
    → q ≢ p
    → b.cid_oid_to_order (order b p).client_id (order b p).client_order_id ≡ p
    → IsOrder b side price q
    → IsOrder b' side price q
IsOrder-Dropped {b} side price p q s ne m h = ground (
  arith,
  s.same_orders q,
  s.order_free q,
  s.order_size,
  h,
  s.clients (order b q).client_id (order b q).client_order_id,
)

pub All-frame {ℓ κ} :
    (P : ℕ → Type ℓ) (Q : ℕ → Type κ) (xs : List ℕ)
    → ((q : ℕ) → has q xs ≡ true → P q → Q q)
    → All P xs
    → All Q xs
All-frame P Q [] f h = tt
All-frame P Q (x ∷ xs) f h =
    (f x (ground arith) h.0, All-frame P Q xs (λ q m. f q (ground arith)) h.1)

pub IsLevel-frame :
    (b b' : MeOrderBook) (side : Side) (e : Entry)
    → InUse b'.orders_at_price_pool e.ptr
    → (level b' e.ptr).side ≡ (level b e.ptr).side
    → (level b' e.ptr).price ≡ (level b e.ptr).price
    → (level b' e.ptr).first_me_order ≡ (level b e.ptr).first_me_order
    → get_orders_at_price b' e.price ≡ get_orders_at_price b e.price
    → ((q : Ptr) → has q (orders e) ≡ true → next_order_of b' q ≡ next_order_of b q)
    → ((q : Ptr) → has q (orders e) ≡ true → prev_order_of b' q ≡ prev_order_of b q)
    → ((q : Ptr) → has q (orders e) ≡ true → IsOrder b side e.price q → IsOrder b' side e.price q)
    → IsLevel b side e
    → IsLevel b' side e
IsLevel-frame b b' side e block s pr f slot nx pv mem l = record {
  block = block;
  on_side = ground arith;
  at_price = ground arith;
  first = ground arith;
  mapped = ground arith;
  ring = IsRing-frame (next_order_of b) (prev_order_of b) _ _ (orders e) nx pv l.ring;
  distinct = l.distinct;
  members = All-frame (IsOrder b side e.price) _ (orders e) mem l.members;
}

-- Changes that leave the price map and the level pool alone leave every look-up alone.
pub slot-same :
    (b b' : MeOrderBook) (price : Price)
    → b'.price_orders_at_price ≡ b.price_orders_at_price
    → get_orders_at_price b' price ≡ get_orders_at_price b price
unfolding get_orders_at_price
slot-same b b' price e = ground (arith, e)

pub level-same :
    (b b' : MeOrderBook) (q : Ptr)
    → b'.orders_at_price_pool ≡ b.orders_at_price_pool
    → level b' q ≡ level b q
unfolding level
level-same b b' q e = ap (λ pool. deref pool q) e

pub best-same :
    (b b' : MeOrderBook) (side : Side)
    → b'.bids_by_price ≡ b.bids_by_price
    → b'.asks_by_price ≡ b.asks_by_price
    → best b' side ≡ best b side
unfolding best
best-same b b' side e f = ground arith
