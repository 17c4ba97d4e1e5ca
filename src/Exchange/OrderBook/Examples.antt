-- ===== src/Exchange/OrderBook/Examples.antt =====
-- A small book of exchange/matcher, and examples of the theorems on it.
use low_latency_trading_syst.Prelude.{
  ◌+◌, ◌≡◌, refl, true, List, [], ◌∷◌, ◌++◌, pos, ok, not, ◌&&◌, ◌==◌, if◌then◌else◌, arith,
}
use low_latency_trading_syst.Common.Types.{Side, Qty}
use low_latency_trading_syst.Common.MemPool.Defs.{Ptr, null, deref}
use low_latency_trading_syst.Exchange.OrderBook.State.{
  MeOrder, MeOrdersAtPrice, MeOrderBook, order, level, best, get_orders_at_price, price_to_index,
  Message,
}
use low_latency_trading_syst.Exchange.OrderBook.Matching.{
  Aggressor, narrowed, check_for_match, cancel, reject_cancel,
}
use low_latency_trading_syst.Exchange.OrderBook.Frame.{content}
use low_latency_trading_syst.Exchange.OrderBook.Shape.{Entry, IsOrder, IsLevel, IsBook}
use low_latency_trading_syst.Exchange.OrderBook.Spec.{resting, sweep}
use low_latency_trading_syst.Exchange.OrderBook.Sweep.{Swept}
use low_latency_trading_syst.Exchange.OrderBook.Matched.{
  check_for_match-sweep, check_for_match_conserves, executed, total_qty,
}
use low_latency_trading_syst.Exchange.OrderBook.Remove.Book.{
  Removes, remove_order-IsBook, remove_from,
}
use low_latency_trading_syst.Exchange.OrderBook.Cancel.{cancel-live, cancel_twice, cancel_messages}

-- One sell order of 10 at 105 rests, of client 1 under its id 7.
abbrev ask : MeOrder
ask = record {
  ticker_id = 0;
  client_id = 1;
  client_order_id = 7;
  market_order_id = 3;
  side = Side.sell;
  price = pos 105;
  qty = 10;
  priority = 1;
  prev_order = 1;
  next_order = 1;
}

abbrev ask_level : MeOrdersAtPrice
ask_level = record {
  side = Side.sell;
  price = pos 105;
  first_me_order = 1;
  prev_entry = 1;
  next_entry = 1;
}

abbrev pub one_ask : MeOrderBook
one_ask = record {
  ticker_id = 0;
  cid_oid_to_order = λ c o. if c == 1 && o == 7 then 1 else 0;
  orders_at_price_pool = record {
    store = λ p. record { object = ask_level; is_free = not (p == 1) };
    size = 4;
    next_free_index = 1;
  };
  bids_by_price = null;
  asks_by_price = 1;
  price_orders_at_price = λ i. if i == 105 then 1 else 0;
  order_pool = record {
    store = λ p. record { object = ask; is_free = not (p == 1) };
    size = 4;
    next_free_index = 1;
  };
  next_market_order_id = 4;
  sent = [];
}

abbrev ask_entry : Entry
ask_entry = record { ptr = 1; price = pos 105; first = 1; more = [] }

abbrev pub entries : List Entry
entries = ask_entry ∷ []

ask-IsOrder : IsOrder one_ask Side.sell (pos 105) 1
unfolding order deref
ask-IsOrder = record {
  block = record { positive = omega arith; in_pool = omega arith; used = refl };
  on_side = refl;
  at_price = refl;
  client = omega arith;
  client_order = omega arith;
  mapped = refl;
}

ask-IsLevel : IsLevel one_ask Side.sell ask_entry
unfolding level order deref get_orders_at_price price_to_index
ask-IsLevel = record {
  block = record { positive = omega arith; in_pool = omega arith; used = refl };
  on_side = refl;
  at_price = refl;
  first = refl;
  mapped = refl;
  ring = (refl, refl);
  distinct = (refl, tt);
  members = (ask-IsOrder, tt);
}

pub one_ask-IsBook : IsBook one_ask Side.sell entries []
unfolding level order deref best price_to_index
one_ask-IsBook = record {
  trading = tt;
  own_side = record {
    top = refl;
    ring = (refl, refl);
    sorted = (tt, tt);
    levels = (ask-IsLevel, tt);
  };
  other_side = record { top = refl; ring = tt; sorted = tt; levels = tt };
  order_pool = record { in_range = omega arith; free = refl };
  level_pool = record { in_range = omega arith; free = refl };
  slots = λ i ne. ground arith;
  clients = λ c o ne. ground arith;
}

-- A buy of 4 at 106. Its id has 33 bits.
abbrev buyer : Aggressor
buyer = record {
  client_id = 2;
  client_order_id = 9;
  ticker_id = 0;
  side = Side.buy;
  price = pos 106;
  market_order_id = 4294967300;
}

check_for_match-sweep_example :
    Swept one_ask Side.sell []
      (check_for_match one_ask buyer 4)
      (sweep (narrowed buyer) 4 (resting one_ask entries))
check_for_match-sweep_example =
    check_for_match-sweep one_ask buyer Side.sell entries [] 4 refl one_ask-IsBook

check_for_match_conserves_example :
    (leaves : Qty) × (b' : MeOrderBook) × (es' : List Entry) × (ms : List Message)
    × (check_for_match one_ask buyer 4 ≡ ok (leaves, b'))
    × (b'.sent ≡ one_ask.sent ++ ms)
    × (executed 4 ms + leaves ≡ 4)
    × (total_qty (resting b' es') + executed 4 ms ≡ total_qty (resting one_ask entries))
    × IsBook b' Side.sell es' []
unfolding order deref
check_for_match_conserves_example =
    check_for_match_conserves one_ask buyer Side.sell entries [] 4 refl one_ask-IsBook (refl, tt)

remove_order-IsBook_example : Removes one_ask Side.sell (remove_from 1 entries) [] 1
remove_order-IsBook_example = remove_order-IsBook one_ask Side.sell entries [] 1 one_ask-IsBook refl

cancel-live_example :
    (b' : MeOrderBook) × (cancel one_ask 1 7 0 ≡ ok b')
    × IsBook b' Side.sell (remove_from 1 entries) (remove_from 1 [])
    × (b'.sent ≡ one_ask.sent ++ cancel_messages 1 7 0 (order one_ask 1))
    × (b'.cid_oid_to_order 1 7 ≡ null)
    × ((b'.order_pool.store 1).is_free ≡ true)
    × ((p : Ptr) → content (order b' p) ≡ content (order one_ask p))
    × (b'.next_market_order_id ≡ 4)
cancel-live_example =
    cancel-live one_ask Side.sell entries [] 1 7 0 one_ask-IsBook (omega arith) (omega arith)
      (omega arith)

-- The book after the cancel.
emptied : MeOrderBook
emptied = cancel-live_example.0

cancel_twice_example : cancel emptied 1 7 0 ≡ ok (reject_cancel emptied 1 7 0)
unfolding emptied
cancel_twice_example =
    cancel_twice one_ask Side.sell entries [] 1 7 0 one_ask-IsBook {b' = emptied} (omega arith)
      cancel-live_example.1
