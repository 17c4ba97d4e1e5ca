-- ===== src/Exchange/OrderBook/Spec.antt =====
-- What exchange/matcher/me_order_book.cpp promises, over plain lists: a side of the book is the list of
-- its resting orders, best price first and oldest first at a price.
use low_latency_trading_syst.Prelude.{
  ◌-◌, min, ◌≡◌, refl, true, false, ◌||◌, ◌==◌, List, [], ◌∷◌, ◌++◌, map,
}
use low_latency_trading_syst.Common.Types.{Qty, order_id_invalid, priority_invalid}
use low_latency_trading_syst.Exchange.Messages.{ClientResponseType, MarketUpdateType}
use low_latency_trading_syst.Exchange.OrderBook.State.{
  MeOrder, MeOrderBook, order, Message, response, market,
}
use low_latency_trading_syst.Exchange.OrderBook.Matching.{Aggressor, too_far}
use low_latency_trading_syst.Exchange.OrderBook.Shape.{Entry, all_orders}
use low_latency_trading_syst.Exchange.OrderBook.Frame.{content}

-- The resting orders of a side.
abbrev pub resting : MeOrderBook → List Entry → List MeOrder
resting b es = map (λ p. content (order b p)) (all_orders es)

-- The messages of one fill against `o`, which has its new quantity.
abbrev pub fill_messages : Aggressor → MeOrder → Qty → Qty → List Message
fill_messages a o fill_qty leaves_qty =
    response (record {
      type = ClientResponseType.filled;
      client_id = a.client_id;
      ticker_id = a.ticker_id;
      client_order_id = a.client_order_id;
      market_order_id = a.market_order_id;
      side = a.side;
      price = o.price;
      exec_qty = fill_qty;
      leaves_qty = leaves_qty;
    })
    ∷ response (record {
      type = ClientResponseType.filled;
      client_id = o.client_id;
      ticker_id = a.ticker_id;
      client_order_id = o.client_order_id;
      market_order_id = o.market_order_id;
      side = o.side;
      price = o.price;
      exec_qty = fill_qty;
      leaves_qty = o.qty;
    })
    ∷ market (record {
      type = MarketUpdateType.trade;
      order_id = order_id_invalid;
      ticker_id = a.ticker_id;
      side = a.side;
      price = o.price;
      qty = fill_qty;
      priority = priority_invalid;
    })
    ∷ []

-- The feed's word on an order that is used up, and on one that is left.
abbrev pub gone_message : Aggressor → MeOrder → Qty → Message
gone_message a o order_qty = market (record {
  type = MarketUpdateType.cancel;
  order_id = o.market_order_id;
  ticker_id = a.ticker_id;
  side = o.side;
  price = o.price;
  qty = order_qty;
  priority = priority_invalid;
})

abbrev pub left_message : Aggressor → MeOrder → Message
left_message a o = market (record {
  type = MarketUpdateType.modify;
  order_id = o.market_order_id;
  ticker_id = a.ticker_id;
  side = o.side;
  price = o.price;
  qty = o.qty;
  priority = o.priority;
})

pub record Sweep : Type 0 where
  pub leaves : Qty
  pub book : List MeOrder
  pub messages : List Message

abbrev pub filled : MeOrder → Qty → MeOrder
filled o leaves = record o { qty = o.qty - min leaves o.qty }

-- Matching by price and time: the aggressive order takes from the front of the other side until it
-- has nothing left, the next price is too far, or nothing rests there.
unfoldable pub sweep : Aggressor → Qty → List MeOrder → Sweep
sweep a leaves [] = record { leaves = leaves; book = []; messages = [] }
sweep a leaves (o ∷ os) = elim (leaves == 0 || too_far a.side a.price o.price) [
  | true ↦ record { leaves = leaves; book = o ∷ os; messages = [] }
  | false ↦
      let fill_qty = min leaves o.qty in
      let o' = filled o leaves in
      let rest = sweep a (leaves - fill_qty) os in
      elim (o'.qty == 0) [
        | true ↦ record {
          leaves = rest.leaves;
          book = rest.book;
          messages =
              fill_messages a o' fill_qty (leaves - fill_qty)
              ++ gone_message a o' o.qty ∷ rest.messages;
        }
        | false ↦ record {
          leaves = leaves - fill_qty;
          book = o' ∷ os;
          messages = fill_messages a o' fill_qty (leaves - fill_qty) ++ left_message a o' ∷ [];
        }
      ]
]

pub sweep_empty :
    (a : Aggressor) (leaves : Qty)
    → sweep a leaves [] ≡ record { leaves = leaves; book = []; messages = [] }
unfolding sweep
sweep_empty a leaves = refl

module _ (a : Aggressor) (leaves : Qty) (o : MeOrder) (os : List MeOrder) where
  pub sweep_stop :
      (leaves == 0 || too_far a.side a.price o.price) ≡ true
      → sweep a leaves (o ∷ os) ≡ record { leaves = leaves; book = o ∷ os; messages = [] }
  unfolding sweep
  sweep_stop h = rw (h, sweep)

  pub sweep_gone :
      (leaves == 0 || too_far a.side a.price o.price) ≡ false
      → (o.qty - min leaves o.qty == 0) ≡ true
      → sweep a leaves (o ∷ os) ≡ (
          let rest = sweep a (leaves - min leaves o.qty) os in
          record {
            leaves = rest.leaves;
            book = rest.book;
            messages =
                fill_messages a (filled o leaves) (min leaves o.qty) (leaves - min leaves o.qty)
                ++ gone_message a (filled o leaves) o.qty ∷ rest.messages;
          })
  unfolding sweep
  sweep_gone h k = rw (h, k, sweep)

  pub sweep_left :
      (leaves == 0 || too_far a.side a.price o.price) ≡ false
      → (o.qty - min leaves o.qty == 0) ≡ false
      → sweep a leaves (o ∷ os) ≡ record {
        leaves = leaves - min leaves o.qty;
        book = filled o leaves ∷ os;
        messages =
            fill_messages a (filled o leaves) (min leaves o.qty) (leaves - min leaves o.qty)
            ++ left_message a (filled o leaves) ∷ [];
      }
  unfolding sweep
  sweep_left h k = rw (h, k, sweep)
