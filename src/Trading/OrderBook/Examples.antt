-- ===== src/Trading/OrderBook/Examples.antt =====
-- A small book of trading/strategy/market_order_book.h, and examples of the theorems on it.
use low_latency_trading_syst.Prelude.{
  ◌≡◌, refl, List, [], ◌∷◌, pos, ok, true, not, ◌==◌, if◌then◌else◌, arith,
}
use low_latency_trading_syst.Common.Types.{Side, price_invalid, qty_invalid}
use low_latency_trading_syst.Common.MemPool.Defs.{null, deref}
use low_latency_trading_syst.Exchange.Messages.{MarketUpdateType, MeMarketUpdate}
use low_latency_trading_syst.Exchange.OrderBook.State as Me
use low_latency_trading_syst.Exchange.OrderBook.Orders as MeOrders
use low_latency_trading_syst.Exchange.OrderBook.Shape.{Entry, IsOrder, IsLevel, IsBook}
use low_latency_trading_syst.Trading.OrderBook.State.{
  MarketOrder, MarketOrdersAtPrice, MarketOrderBook, default_bbo, order,
}
use low_latency_trading_syst.Trading.OrderBook.Orders
use low_latency_trading_syst.Trading.OrderBook.Update.{update_bbo}
use low_latency_trading_syst.Trading.OrderBook.Embed.{embed}
use low_latency_trading_syst.Trading.OrderBook.SameRun.{embed_run, remove_order-embed}
use low_latency_trading_syst.Trading.OrderBook.SameAdd.{add_order-embed}
use low_latency_trading_syst.Trading.OrderBook.Best.{top_of, update_bbo-top_of}
use low_latency_trading_syst.Trading.OrderBook.Untouched.{Untouched}

-- One buy order of 10 at 95 rests, with id 7.
abbrev bid : MarketOrder
bid = record {
  order_id = 7;
  side = Side.buy;
  price = pos 95;
  qty = 10;
  priority = 1;
  prev_order = 1;
  next_order = 1;
}

abbrev bid_level : MarketOrdersAtPrice
bid_level = record {
  side = Side.buy;
  price = pos 95;
  first_mkt_order = 1;
  prev_entry = 1;
  next_entry = 1;
}

abbrev one_bid : MarketOrderBook
one_bid = record {
  ticker_id = 0;
  oid_to_order = λ o. if o == 7 then 1 else 0;
  orders_at_price_pool = record {
    store = λ p. record { object = bid_level; is_free = not (p == 1) };
    size = 4;
    next_free_index = 1;
  };
  bids_by_price = 1;
  asks_by_price = null;
  price_orders_at_price = λ i. if i == 95 then 1 else 0;
  order_pool = record {
    store = λ p. record { object = bid; is_free = not (p == 1) };
    size = 4;
    next_free_index = 1;
  };
  bbo = default_bbo;
  notified = [];
}

abbrev bid_entry : Entry
bid_entry = record { ptr = 1; price = pos 95; first = 1; more = [] }

abbrev bids : List Entry
bids = bid_entry ∷ []

bid-IsOrder : IsOrder (embed one_bid) Side.buy (pos 95) 1
unfolding Me.order deref embed
bid-IsOrder = record {
  block = record { positive = omega arith; in_pool = omega arith; used = refl };
  on_side = refl;
  at_price = refl;
  client = omega arith;
  client_order = omega arith;
  mapped = refl;
}

bid-IsLevel : IsLevel (embed one_bid) Side.buy bid_entry
unfolding Me.level Me.order deref Me.get_orders_at_price Me.price_to_index embed
bid-IsLevel = record {
  block = record { positive = omega arith; in_pool = omega arith; used = refl };
  on_side = refl;
  at_price = refl;
  first = refl;
  mapped = refl;
  ring = (refl, refl);
  distinct = (refl, tt);
  members = (bid-IsOrder, tt);
}

one_bid-IsBook : IsBook (embed one_bid) Side.buy bids []
unfolding Me.level Me.order deref Me.best Me.price_to_index embed
one_bid-IsBook = record {
  trading = tt;
  own_side = record {
    top = refl;
    ring = (refl, refl);
    sorted = (tt, tt);
    levels = (bid-IsLevel, tt);
  };
  other_side = record { top = refl; ring = tt; sorted = tt; levels = tt };
  order_pool = record { in_range = omega arith; free = refl };
  level_pool = record { in_range = omega arith; free = refl };
  slots = λ i ne. ground arith;
  clients = λ c o ne. ground arith;
}

update_bbo-top_of_example :
    update_bbo one_bid true true
    ≡ ok (record one_bid {
      bbo = record {
        bid_price = pos 95;
        bid_qty = (top_of one_bid bids).1;
        ask_price = price_invalid;
        ask_qty = qty_invalid;
      };
    })
unfolding order deref
update_bbo-top_of_example = update_bbo-top_of one_bid bids [] one_bid-IsBook (omega arith) tt

abbrev cancel_update : MeMarketUpdate
cancel_update = record {
  type = MarketUpdateType.cancel;
  order_id = 7;
  ticker_id = 0;
  side = Side.buy;
  price = pos 95;
  qty = 0;
  priority = 1;
}

remove_order-embed_example :
    MeOrders.remove_order (embed one_bid) 1 ≡ embed_run (Orders.remove_order one_bid 1)
remove_order-embed_example = remove_order-embed one_bid 1

add_order-embed_example :
    MeOrders.add_order (embed one_bid) 2 ≡ embed_run (Orders.add_order one_bid 2)
add_order-embed_example = add_order-embed one_bid 2
