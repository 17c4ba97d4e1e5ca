-- ===== src/Trading/OrderManager/Manager.antt =====
-- trading/strategy/om_order.h, order_manager.h and order_manager.cpp. What is sent through the trade
-- engine is appended to `sent`. The risk check of an instrument is given to the operations that ask it.
use low_latency_trading_syst.Prelude.{
  ℕ, ◌+◌, ◌%◌, not, ◌==◌, update, ltb, if◌then◌else◌, ◌==ℤ◌, List, [], ◌∷◌, ◌++◌, Result, ok, ◌>>◌,
  assert,
}
use low_latency_trading_syst.Common.Types.{
  OrderId, order_id_invalid, TickerId, ticker_id_invalid, ClientId, Price, price_invalid, Qty,
  qty_invalid, Side, side_to_index, me_max_tickers, u64_mod,
}
use low_latency_trading_syst.Exchange.Messages.{
  ClientRequestType, MeClientRequest, ClientResponseType, MeClientResponse,
}
use low_latency_trading_syst.Trading.RiskManager.{RiskCheckResult}

pub data OmOrderState : Type 0 where
  invalid pending_new live pending_cancel dead : OmOrderState

pub record OmOrder : Type 0 where
  pub ticker_id : TickerId
  pub order_id : OrderId
  pub side : Side
  pub price : Price
  pub qty : Qty
  pub order_state : OmOrderState

abbrev pub default_order : OmOrder
default_order = record {
  ticker_id = ticker_id_invalid;
  order_id = order_id_invalid;
  side = Side.invalid;
  price = price_invalid;
  qty = qty_invalid;
  order_state = OmOrderState.invalid;
}

pub record OrderManager : Type 0 where
  pub client_id : ClientId
  pub ticker_side_order : TickerId → ℕ → OmOrder
  pub next_order_id : OrderId
  pub sent : List MeClientRequest

unfoldable pub init : ClientId → OrderManager
init client_id = record {
  client_id = client_id;
  ticker_side_order = λ _ _. default_order;
  next_order_id = 1;
  sent = [];
}

-- `*order = o`, for the order of an instrument at a side's index.
unfoldable pub put_order : OrderManager → TickerId → ℕ → OmOrder → OrderManager
put_order m ticker_id i o = record m {
  ticker_side_order =
      λ t. if t == ticker_id then update (m.ticker_side_order t) i o else m.ticker_side_order t;
}

-- `newOrder`
unfoldable pub new_order : OrderManager → ℕ → TickerId → Price → Side → Qty → OrderManager
unfolding put_order
new_order m i ticker_id price side qty =
    let m1 = record m {
      sent =
          m.sent
          ++ record {
            type = ClientRequestType.new;
            client_id = m.client_id;
            ticker_id = ticker_id;
            order_id = m.next_order_id;
            side = side;
            price = price;
            qty = qty;
          }
            ∷ [];
    } in
    let m2 = put_order m1 ticker_id i (record {
      ticker_id = ticker_id;
      order_id = m.next_order_id;
      side = side;
      price = price;
      qty = qty;
      order_state = OmOrderState.pending_new;
    }) in
    record m2 { next_order_id = (m.next_order_id + 1) % u64_mod }

-- `cancelOrder`
unfoldable pub cancel_order : OrderManager → ℕ → TickerId → OrderManager
unfolding put_order
cancel_order m i ticker_id =
    let o = m.ticker_side_order ticker_id i in
    put_order
      (record m {
        sent =
            m.sent
            ++ record {
              type = ClientRequestType.cancel;
              client_id = m.client_id;
              ticker_id = o.ticker_id;
              order_id = o.order_id;
              side = o.side;
              price = o.price;
              qty = o.qty;
            }
              ∷ [];
      })
      ticker_id i (record o { order_state = OmOrderState.pending_cancel })

-- `moveOrder`
unfoldable pub move_order :
    (TickerId → Side → Qty → RiskCheckResult)
    → OrderManager
    → ℕ
    → TickerId
    → Price
    → Side
    → Qty
    → OrderManager
move_order check m i ticker_id price side qty =
    let o = m.ticker_side_order ticker_id i in
    let send = if not (price ==ℤ price_invalid) then place (check ticker_id side qty) else m in
    elim o.order_state [
      | OmOrderState.live ↦ if not (o.price ==ℤ price) then cancel_order m i ticker_id else m
      | OmOrderState.invalid ↦ send
      | OmOrderState.dead ↦ send
      | OmOrderState.pending_new ↦ m
      | OmOrderState.pending_cancel ↦ m
    ]
  where
    place : RiskCheckResult → OrderManager
    place RiskCheckResult.allowed = new_order m i ticker_id price side qty
    place _ = m

-- `moveOrders`
unfoldable pub move_orders :
    (TickerId → Side → Qty → RiskCheckResult)
    → OrderManager
    → TickerId
    → Price
    → Price
    → Qty
    → Result OrderManager
move_orders check m ticker_id bid_price ask_price clip = do
  assert (ltb ticker_id me_max_tickers)
  let m1 = move_order check m (side_to_index Side.buy) ticker_id bid_price Side.buy clip
  ok (move_order check m1 (side_to_index Side.sell) ticker_id ask_price Side.sell clip)

-- The order after an update.
unfoldable pub updated : OmOrder → MeClientResponse → OmOrder
updated o r = elim r.type [
  | ClientResponseType.accepted ↦ record o { order_state = OmOrderState.live }
  | ClientResponseType.canceled ↦ record o { order_state = OmOrderState.dead }
  | ClientResponseType.filled ↦
      if r.leaves_qty == 0
      then record o { qty = r.leaves_qty; order_state = OmOrderState.dead }
      else record o { qty = r.leaves_qty }
  | ClientResponseType.cancel_rejected ↦ o
  | ClientResponseType.invalid ↦ o
]

-- `onOrderUpdate`
unfoldable pub on_order_update : OrderManager → MeClientResponse → Result OrderManager
unfolding put_order updated
on_order_update m r = do
  assert (ltb r.ticker_id me_max_tickers)
  let i = side_to_index r.side
  ok (put_order m r.ticker_id i (updated (m.ticker_side_order r.ticker_id i) r))
