-- ===== src/Exchange/OrderBook/Shape.antt =====
-- What a well-formed order book of exchange/matcher/me_order_book.h looks like in memory: two rings of
-- price levels, sorted best first, each level a ring of live orders, and the two hash maps.
use low_latency_trading_syst.Prelude.{ℕ, ◌≤◌, ◌<◌, ◌≡◌, ◌≢◌, true, false, List, [], ◌∷◌, ◌++◌, All}
use low_latency_trading_syst.Ring.Chain.{has, Distinct, IsRing}
use low_latency_trading_syst.Common.Types.{Price, Side, me_max_num_clients, me_max_order_ids}
use low_latency_trading_syst.Common.MemPool.Defs.{Ptr, null, MemPool}
use low_latency_trading_syst.Common.MemPool.Laws
use low_latency_trading_syst.Exchange.OrderBook.State.{
  MeOrderBook, order, level, best, get_orders_at_price, goes_after, price_to_index,
}

-- A price level as the proofs see it: where it lies, its price, and where its orders lie.
pub record Entry : Type 0 where
  pub ptr : Ptr
  pub price : Price
  pub first : Ptr
  pub more : List Ptr

abbrev pub orders : Entry → List Ptr
orders e = e.first ∷ e.more

abbrev pub ptrs : List Entry → List Ptr
ptrs [] = []
ptrs (e ∷ es) = e.ptr ∷ ptrs es

abbrev pub all_orders : List Entry → List Ptr
all_orders [] = []
all_orders (e ∷ es) = orders e ++ all_orders es

abbrev pub head_ptr : List Entry → Ptr
head_ptr [] = null
head_ptr (e ∷ es) = e.ptr

abbrev pub next_order_of : MeOrderBook → Ptr → Ptr
next_order_of b p = (order b p).next_order

abbrev pub prev_order_of : MeOrderBook → Ptr → Ptr
prev_order_of b p = (order b p).prev_order

abbrev pub next_entry_of : MeOrderBook → Ptr → Ptr
next_entry_of b p = (level b p).next_entry

abbrev pub prev_entry_of : MeOrderBook → Ptr → Ptr
prev_entry_of b p = (level b p).prev_entry

-- A block of a pool that is in use.
pub record InUse {A : Type 0} (pool : MemPool A) (p : Ptr) : Type 0 where
  pub positive : 1 ≤ p
  pub in_pool : p ≤ pool.size
  pub used : (pool.store p).is_free ≡ false

-- A live order of a side and price, which its client's map finds.
pub record IsOrder (b : MeOrderBook) (side : Side) (price : Price) (p : Ptr) : Type 0 where
  pub block : InUse b.order_pool p
  pub on_side : (order b p).side ≡ side
  pub at_price : (order b p).price ≡ price
  pub client : (order b p).client_id < me_max_num_clients
  pub client_order : (order b p).client_order_id < me_max_order_ids
  pub mapped : b.cid_oid_to_order (order b p).client_id (order b p).client_order_id ≡ p

-- A level with its ring of orders, which the price map finds.
pub record IsLevel (b : MeOrderBook) (side : Side) (e : Entry) : Type 0 where
  pub block : InUse b.orders_at_price_pool e.ptr
  pub on_side : (level b e.ptr).side ≡ side
  pub at_price : (level b e.ptr).price ≡ e.price
  pub first : (level b e.ptr).first_me_order ≡ e.first
  pub mapped : get_orders_at_price b e.price ≡ e.ptr
  pub ring : IsRing (next_order_of b) (prev_order_of b) (orders e)
  pub distinct : Distinct (orders e)
  pub members : All (IsOrder b side e.price) (orders e)

-- Each level is strictly behind all that stand before it.
abbrev pub Sorted : Side → List Entry → Type 0
Sorted side [] = Unit
Sorted side (e ∷ es) = All (λ f. goes_after side f.price e.price ≡ true) es × Sorted side es

-- One side of the book.
pub record IsSide (b : MeOrderBook) (side : Side) (es : List Entry) : Type 0 where
  pub top : best b side ≡ head_ptr es
  pub ring : IsRing (next_entry_of b) (prev_entry_of b) (ptrs es)
  pub sorted : Sorted side es
  pub levels : All (IsLevel b side) es

-- The side that an order trades against.
abbrev pub flip : Side → Side
flip Side.buy = Side.sell
flip _ = Side.buy

abbrev pub IsTrading : Side → Type 0
IsTrading Side.buy = Unit
IsTrading Side.sell = Unit
IsTrading _ = ⊥

-- The book, with the levels of `side` first. The maps hold nothing but live levels and live orders.
pub record IsBook (b : MeOrderBook) (side : Side) (own other : List Entry) : Type 0 where
  pub trading : IsTrading side
  pub own_side : IsSide b side own
  pub other_side : IsSide b (flip side) other
  pub order_pool : Laws.IsValid b.order_pool
  pub level_pool : Laws.IsValid b.orders_at_price_pool
  pub slots :
      (i : ℕ)
      → b.price_orders_at_price i ≢ null
      → (has (b.price_orders_at_price i) (ptrs (own ++ other)) ≡ true)
        × (price_to_index (level b (b.price_orders_at_price i)).price ≡ i)
  pub clients :
      (c o : ℕ)
      → b.cid_oid_to_order c o ≢ null
      → (has (b.cid_oid_to_order c o) (all_orders (own ++ other)) ≡ true)
        × ((order b (b.cid_oid_to_order c o)).client_id ≡ c)
        × ((order b (b.cid_oid_to_order c o)).client_order_id ≡ o)
