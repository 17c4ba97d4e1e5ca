-- ===== src/Trading/OrderManager/Histories.antt =====
-- What the order manager of trading/strategy/order_manager.h has sent, after any moves and updates.
use low_latency_trading_syst.Prelude.{
  ok-injective, ℕ, sym, subst, ◌⊎◌, ◌+◌, ◌%◌, ◌≡◌, refl, Bool, true, false, ◌&&◌, ◌||◌, ◌==◌,
  update, ltb, List, [], ◌∷◌, ◌++◌, arith, ok, Bool-cases, inl, inr,
}
use low_latency_trading_syst.Common.Types.{
  TickerId, ClientId, OrderId, Price, Qty, Side, u64_mod, me_max_tickers, side_to_index,
}
use low_latency_trading_syst.Exchange.Messages.{
  ClientRequestType, MeClientRequest, MeClientResponse,
}
use low_latency_trading_syst.Trading.RiskManager.{RiskCheckResult}
use low_latency_trading_syst.Trading.OrderManager.Manager.{
  OmOrderState, OmOrder, OrderManager, init, put_order, new_order, cancel_order, move_order,
  move_orders, updated, on_order_update,
}

abbrev is_new : ClientRequestType → Bool
is_new ClientRequestType.new = true
is_new _ = false

-- A new order of the instrument with the id has been sent.
pub ordered : TickerId → OrderId → List MeClientRequest → Bool
ordered t o [] = false
ordered t o (r ∷ rs) = (is_new r.type && r.ticker_id == t && r.order_id == o) || ordered t o rs

abbrev is_invalid : OmOrderState → Bool
is_invalid OmOrderState.invalid = true
is_invalid _ = false

ordered-snoc :
    (t : TickerId) (o : OrderId) (rs : List MeClientRequest) (r : MeClientRequest)
    → ordered t o (rs ++ r ∷ [])
      ≡ (ordered t o rs || (is_new r.type && r.ticker_id == t && r.order_id == o))
unfolding ordered
ordered-snoc t o [] r = ground arith
ordered-snoc t o (x ∷ rs) r = ground (arith, ordered-snoc t o rs r)

-- What may be sent, in order, and the next id: new orders have the ids that follow each other from 1
-- on, and a cancel names an order that was sent before, by its instrument and id.
pub data Log : List MeClientRequest → OrderId → Type 0 where
  empty : Log [] 1
  new :
      {l : List MeClientRequest} {n : OrderId} (r : MeClientRequest)
      → Log l n
      → r.type ≡ ClientRequestType.new
      → r.order_id ≡ n
      → Log (l ++ r ∷ []) ((n + 1) % u64_mod)
  cancel :
      {l : List MeClientRequest} {n : OrderId} (r : MeClientRequest)
      → Log l n
      → r.type ≡ ClientRequestType.cancel
      → ordered r.ticker_id r.order_id l ≡ true
      → Log (l ++ r ∷ []) n

-- What was sent is such a log, and every order that is not unused was sent.
pub record IsSound (m : OrderManager) : Type 0 where
  pub log : Log m.sent m.next_order_id
  pub orders :
      (t : TickerId) (i : ℕ)
      → is_invalid (m.ticker_side_order t i).order_state ≡ false
      → ordered (m.ticker_side_order t i).ticker_id (m.ticker_side_order t i).order_id m.sent ≡ true

init-IsSound : (c : ClientId) → IsSound (init c)
unfolding init
init-IsSound c = record { log = Log.empty; orders = λ t i h. ground arith }

new_order-IsSound :
    (m : OrderManager) (i : ℕ) (ticker_id : TickerId) (price : Price) (side : Side) (qty : Qty)
    → IsSound m
    → IsSound (new_order m i ticker_id price side qty)
unfolding new_order put_order update
new_order-IsSound m i ticker_id price side qty v = record {
  log = Log.new _ v.log refl refl;
  orders = λ t j h.
      let more = λ (a : TickerId) (o : OrderId). ordered-snoc a o m.sent (record {
        type = ClientRequestType.new;
        client_id = m.client_id;
        ticker_id = ticker_id;
        order_id = m.next_order_id;
        side = side;
        price = price;
        qty = qty;
      }) in
      elim (Bool-cases (t == ticker_id && j == i)) [
        | inl here ↦ ground (arith, more ticker_id m.next_order_id)
        | inr away ↦ ground (
          arith,
          v.orders t j,
          more (m.ticker_side_order t j).ticker_id (m.ticker_side_order t j).order_id,
        )
      ];
}

cancel_order-IsSound :
    (m : OrderManager) (i : ℕ) (ticker_id : TickerId)
    → is_invalid (m.ticker_side_order ticker_id i).order_state ≡ false
    → IsSound m
    → IsSound (cancel_order m i ticker_id)
unfolding cancel_order put_order update
cancel_order-IsSound m i ticker_id used v = record {
  log = Log.cancel _ v.log refl (v.orders ticker_id i used);
  orders = λ t j h.
      let o = m.ticker_side_order ticker_id i in
      let more = λ (a : TickerId) (b : OrderId). ordered-snoc a b m.sent (record {
        type = ClientRequestType.cancel;
        client_id = m.client_id;
        ticker_id = o.ticker_id;
        order_id = o.order_id;
        side = o.side;
        price = o.price;
        qty = o.qty;
      }) in
      elim (Bool-cases (t == ticker_id && j == i)) [
        | inl here ↦ ground (arith, v.orders ticker_id i used, more o.ticker_id o.order_id)
        | inr away ↦ ground (
          arith,
          v.orders t j,
          more (m.ticker_side_order t j).ticker_id (m.ticker_side_order t j).order_id,
        )
      ];
}

-- A move leaves all as it is, sends a new order, or cancels the order that is live.
move_order_cases :
    (check : TickerId → Side → Qty → RiskCheckResult) (m : OrderManager) (i : ℕ) (t : TickerId)
    (price : Price) (side : Side) (qty : Qty)
    → (move_order check m i t price side qty ≡ m)
      ⊎ (move_order check m i t price side qty ≡ new_order m i t price side qty)
      ⊎ ((is_invalid (m.ticker_side_order t i).order_state ≡ false)
          × (move_order check m i t price side qty ≡ cancel_order m i t))
unfolding move_order
move_order_cases check m i t price side qty = ground arith

move_order-IsSound :
    (check : TickerId → Side → Qty → RiskCheckResult) (m : OrderManager) (i : ℕ) (t : TickerId)
    (price : Price) (side : Side) (qty : Qty)
    → IsSound m
    → IsSound (move_order check m i t price side qty)
move_order-IsSound check m i t price side qty v =
    elim (move_order_cases check m i t price side qty) [
      | inl same ↦ subst IsSound (sym same) v
      | inr (inl placed) ↦ subst IsSound (sym placed) (new_order-IsSound m i t price side qty v)
      | inr (inr (used, gone)) ↦ subst IsSound (sym gone) (cancel_order-IsSound m i t used v)
    ]

updated-names :
    (o : OmOrder) (r : MeClientResponse)
    → ((updated o r).ticker_id ≡ o.ticker_id) × ((updated o r).order_id ≡ o.order_id)
unfolding updated
updated-names o r = ground arith

put_order-IsSound :
    (m : OrderManager) (t : TickerId) (i : ℕ) (o : OmOrder)
    → ordered o.ticker_id o.order_id m.sent ≡ true
    → IsSound m
    → IsSound (put_order m t i o)
unfolding put_order update
put_order-IsSound m t i o named v = record {
  log = v.log;
  orders = λ a j h. ground (arith, v.orders a j);
}

-- The manager after any moves of instruments and any updates for orders that were sent; the risk
-- check may have another answer at every move.
pub data Reach (client_id : ClientId) : OrderManager → Type 0 where
  start : Reach client_id (init client_id)
  moved :
      {m m' : OrderManager} (check : TickerId → Side → Qty → RiskCheckResult) (t : TickerId)
      (bid_price ask_price : Price) (clip : Qty)
      → Reach client_id m
      → move_orders check m t bid_price ask_price clip ≡ ok m'
      → Reach client_id m'
  told :
      {m m' : OrderManager} (r : MeClientResponse)
      → Reach client_id m
      → is_invalid (m.ticker_side_order r.ticker_id (side_to_index r.side)).order_state ≡ false
      → on_order_update m r ≡ ok m'
      → Reach client_id m'

move_orders-IsSound :
    (check : TickerId → Side → Qty → RiskCheckResult) (m m' : OrderManager) (t : TickerId)
    (bid_price ask_price : Price) (clip : Qty)
    → IsSound m
    → move_orders check m t bid_price ask_price clip ≡ ok m'
    → IsSound m'
unfolding move_orders
move_orders-IsSound check m m' t bid_price ask_price clip v e =
    elim (Bool-cases (ltb t me_max_tickers)) [
      | inl inside ↦
          let b = move_order-IsSound check m (side_to_index Side.buy) t bid_price Side.buy clip v in
          let a =
            move_order-IsSound check _ (side_to_index Side.sell) t ask_price Side.sell clip b in
          subst IsSound (ok-injective (ground (arith, e))) a
      | inr outside ↦ absurd (ground (arith, e))
    ]

on_order_update-IsSound :
    (m m' : OrderManager) (r : MeClientResponse)
    → IsSound m
    → is_invalid (m.ticker_side_order r.ticker_id (side_to_index r.side)).order_state ≡ false
    → on_order_update m r ≡ ok m'
    → IsSound m'
unfolding on_order_update
on_order_update-IsSound m m' r v used e = elim (Bool-cases (ltb r.ticker_id me_max_tickers)) [
  | inl inside ↦
      let i = side_to_index r.side in
      let o = m.ticker_side_order r.ticker_id i in
      let names = updated-names o r in
      let named : ordered (updated o r).ticker_id (updated o r).order_id m.sent ≡ true =
        rw (names.0, names.1) (v.orders r.ticker_id i used) in
      subst IsSound (ok-injective (ground (arith, e)))
        (put_order-IsSound m r.ticker_id i (updated o r) named v)
  | inr outside ↦ absurd (ground (arith, e))
]

-- In every reachable state of the order manager, the new orders that were sent have the ids that
-- follow each other from 1 on, every cancel names an order that was sent before it, and so does every
-- order that the manager holds and has used.
pub Reach-IsSound : (c : ClientId) (m : OrderManager) → Reach c m → IsSound m
Reach-IsSound c _ Reach.start = init-IsSound c
Reach-IsSound c _ (Reach.moved {m} {m'} check t bid_price ask_price clip r e) =
    move_orders-IsSound check m m' t bid_price ask_price clip (Reach-IsSound c m r) e
Reach-IsSound c _ (Reach.told {m} {m'} u r used e) =
    on_order_update-IsSound m m' u (Reach-IsSound c m r) used e
