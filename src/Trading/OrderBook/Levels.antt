-- ===== src/Trading/OrderBook/Levels.antt =====
-- The price levels of trading/strategy/market_order_book.h: a ring of levels for each side, best first.
use low_latency_trading_syst.Prelude.{
  ℕ, zero, suc, ◌+◌, Bool, true, false, not, ◌&&◌, ◌==◌, if◌then◌else◌, Result, ok, out_of_fuel,
  ◌>>=◌,
}
use low_latency_trading_syst.Common.Types.{Price, Side}
use low_latency_trading_syst.Common.MemPool.Defs.{Ptr, null, deallocate}
use low_latency_trading_syst.Trading.OrderBook.State.{
  MarketOrderBook, level, set_prev_entry, set_next_entry, best, set_best, get_orders_at_price,
  set_orders_at_price,
}
use low_latency_trading_syst.Exchange.OrderBook.State.{goes_after, is_better}

-- The search loop of `addOrdersAtPrice`: from `target`, on to the first level that the new one does
-- not go behind, or round to the best level. It is given a round for each block of the pool and one.
unfoldable pub find_target :
    MarketOrderBook → Side → Price → Ptr → ℕ → Ptr → Bool → Result (Ptr × Bool)
find_target b side price best_orders zero target add_after = out_of_fuel
find_target b side price best_orders (suc fuel) target add_after =
    elim (add_after && not (target == best_orders)) [
      | false ↦ ok (target, add_after)
      | true ↦
          let add_after' = goes_after side price (level b target).price in
          find_target b side price best_orders fuel
            (if add_after' then (level b target).next_entry else target) add_after'
    ]

-- "add new_orders_at_price after target"
unfoldable pub link_after : MarketOrderBook → Ptr → Ptr → MarketOrderBook
unfolding set_prev_entry set_next_entry level
link_after b new target =
    let b1 = set_prev_entry b new target in
    let b2 = set_prev_entry b1 (level b1 target).next_entry new in
    let b3 = set_next_entry b2 new (level b2 target).next_entry in set_next_entry b3 target new

-- "add new_orders_at_price before target"
unfoldable pub link_before : MarketOrderBook → Ptr → Ptr → MarketOrderBook
unfolding set_prev_entry set_next_entry level
link_before b new target =
    let b1 = set_prev_entry b new (level b target).prev_entry in
    let b2 = set_next_entry b1 new target in
    let b3 = set_next_entry b2 (level b2 target).prev_entry new in set_prev_entry b3 target new

-- The new level has become the best of its side.
unfoldable pub promote : MarketOrderBook → Side → Ptr → Ptr → Ptr → MarketOrderBook
unfolding set_next_entry set_best level
promote b side new target best_orders =
    let next = (level b target).next_entry in
    let b1 = set_next_entry b target (if next == best_orders then new else next) in
    set_best b1 side new

-- The two branches after the search.
unfoldable pub place_level : MarketOrderBook → Ptr → Ptr → Ptr → Bool → MarketOrderBook
unfolding level link_after link_before promote is_better
place_level b new best_orders target true =
    link_after b new (if target == best_orders then (level b best_orders).prev_entry else target)
place_level b new best_orders target false =
    let b' = link_before b new target in
    let l = level b' new in
    if is_better l.side l.price (level b' best_orders).price
    then promote b' l.side new target best_orders
    else b'

-- `addOrdersAtPrice`
unfoldable pub add_orders_at_price : MarketOrderBook → Ptr → Result MarketOrderBook
unfolding level set_orders_at_price best set_best set_prev_entry set_next_entry goes_after
add_orders_at_price b0 new =
    let l = level b0 new in
    let b = set_orders_at_price b0 l.price new in
    let best_orders = best b l.side in
    if best_orders == null
    then ok (set_prev_entry (set_next_entry (set_best b l.side new) new new) new new)
    else do
      let second = (level b best_orders).next_entry
      let behind_best = goes_after l.side l.price (level b best_orders).price
      let target = if behind_best then second else best_orders
      let add_after = behind_best && goes_after l.side l.price (level b second).price
      (target', add_after') ←
          find_target b l.side l.price best_orders (b.orders_at_price_pool.size + 1) target
            add_after
      ok (place_level b new best_orders target' add_after')

-- `removeOrdersAtPrice`
unfoldable pub unlink_level : MarketOrderBook → Side → Ptr → MarketOrderBook
unfolding level set_next_entry set_prev_entry best set_best
unlink_level b side p =
    let best_orders = best b side in
    if (level b p).next_entry == p
    then set_best b side null
    else let b1 = set_next_entry b (level b p).prev_entry (level b p).next_entry in
      let b2 = set_prev_entry b1 (level b1 p).next_entry (level b1 p).prev_entry in
      let b3 = if p == best_orders then set_best b2 side (level b2 p).next_entry else b2 in
      set_prev_entry (set_next_entry b3 p null) p null

unfoldable pub remove_orders_at_price : MarketOrderBook → Side → Price → Result MarketOrderBook
unfolding get_orders_at_price set_orders_at_price unlink_level
remove_orders_at_price b side price = do
  let p = get_orders_at_price b price
  let b1 = set_orders_at_price (unlink_level b side p) price null
  pool ← deallocate b1.orders_at_price_pool p
  ok (record b1 { orders_at_price_pool = pool })
