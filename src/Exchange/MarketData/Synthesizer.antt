-- ===== src/Exchange/MarketData/Synthesizer.antt =====
-- exchange/market_data/snapshot_synthesizer.h and snapshot_synthesizer.cpp. `at` out of range throws,
-- and nothing catches it. The time of the clock is an argument. The two loops of `publishSnapshot` are
-- given the sizes of their arrays.
use low_latency_trading_syst.Prelude.{
  ℕ, zero, suc, ◌+◌, ◌-◌, ◌%◌, true, false, not, ◌==◌, ltb, update, if◌then◌else◌, [], Result, ok,
  out_of_fuel, ◌>>=◌, ◌>>◌, assert, none, some,
}
use low_latency_trading_syst.Common.Types.{
  TickerId, OrderId, side_to_index, u64_mod, me_max_tickers, me_max_order_ids,
}
use low_latency_trading_syst.Common.MemPool.Defs.{
  Ptr, null, MemPool, deref, assign, allocate, deallocate,
}
use low_latency_trading_syst.Common.MemPool.Defs
use low_latency_trading_syst.Common.LfQueue.Defs.{LfQueue, get_next_to_read, update_read_index}
use low_latency_trading_syst.Common.McastSocket.{McastSocket, send, flush}
use low_latency_trading_syst.Exchange.Messages.{
  MarketUpdateType, MeMarketUpdate, MdpMarketUpdate, default_update,
}

-- `sizeof(MDPMarketUpdate)`, which is packed.
abbrev pub sizeof_mdp_market_update : ℕ
sizeof_mdp_market_update = 42

pub record SnapshotSynthesizer : Type 0 where
  pub snapshot_md_updates : LfQueue MdpMarketUpdate
  pub snapshot_socket : McastSocket MdpMarketUpdate
  pub ticker_orders : TickerId → OrderId → Ptr
  pub last_inc_seq_num : ℕ
  pub last_snapshot_time : ℕ
  pub order_pool : MemPool MeMarketUpdate

unfoldable pub init : LfQueue MdpMarketUpdate → SnapshotSynthesizer
init market_updates = record {
  snapshot_md_updates = market_updates;
  snapshot_socket = record { outbound = []; next_send_valid_index = 0; wire = [] };
  ticker_orders = λ _ _. null;
  last_inc_seq_num = 0;
  last_snapshot_time = 0;
  order_pool = Defs.init default_update me_max_order_ids;
}

-- `orders->at(order_id) = p`
unfoldable pub put_ptr : SnapshotSynthesizer → TickerId → OrderId → Ptr → SnapshotSynthesizer
put_ptr s t o p = record s {
  ticker_orders = λ t'. if t' == t then update (s.ticker_orders t') o p else s.ticker_orders t';
}

-- The three assertions of MODIFY and of CANCEL.
unfoldable pub check_order : SnapshotSynthesizer → MeMarketUpdate → Result Ptr
check_order s u = do
  assert (ltb u.order_id me_max_order_ids)
  let p = s.ticker_orders u.ticker_id u.order_id
  assert (not (p == null))
  assert ((deref s.order_pool p).order_id == u.order_id)
  assert (side_to_index (deref s.order_pool p).side == side_to_index u.side)
  ok p

-- The cases of `addToSnapshot`.
unfoldable pub add_order : SnapshotSynthesizer → MeMarketUpdate → Result SnapshotSynthesizer
unfolding put_ptr
add_order s u = do
  assert (ltb u.order_id me_max_order_ids)
  assert (s.ticker_orders u.ticker_id u.order_id == null)
  (p, pool) ← allocate s.order_pool u
  ok (record (put_ptr s u.ticker_id u.order_id p) { order_pool = pool })

unfoldable pub modify_order : SnapshotSynthesizer → MeMarketUpdate → Result SnapshotSynthesizer
modify_order s u = do
  p ← check_order s u
  ok (record s {
    order_pool =
        assign s.order_pool p (record (deref s.order_pool p) { qty = u.qty; price = u.price });
  })

unfoldable pub cancel_order : SnapshotSynthesizer → MeMarketUpdate → Result SnapshotSynthesizer
unfolding put_ptr
cancel_order s u = do
  p ← check_order s u
  pool ← deallocate s.order_pool p
  ok (record (put_ptr s u.ticker_id u.order_id null) { order_pool = pool })

unfoldable pub add_update : SnapshotSynthesizer → MeMarketUpdate → Result SnapshotSynthesizer
add_update s u = elim u.type [
  | MarketUpdateType.add ↦ add_order s u
  | MarketUpdateType.modify ↦ modify_order s u
  | MarketUpdateType.cancel ↦ cancel_order s u
  | MarketUpdateType.snapshot_start ↦ ok s
  | MarketUpdateType.clear ↦ ok s
  | MarketUpdateType.snapshot_end ↦ ok s
  | MarketUpdateType.trade ↦ ok s
  | MarketUpdateType.invalid ↦ ok s
]

-- `addToSnapshot`
unfoldable pub add_to_snapshot : SnapshotSynthesizer → MdpMarketUpdate → Result SnapshotSynthesizer
add_to_snapshot s m = do
  assert (ltb m.me_market_update.ticker_id me_max_tickers)
  s' ← add_update s m.me_market_update
  assert (m.seq_num == (s'.last_inc_seq_num + 1) % u64_mod)
  ok (record s' { last_inc_seq_num = m.seq_num })

-- A message of the snapshot with the next number of the cycle.
unfoldable pub emit :
    McastSocket MdpMarketUpdate × ℕ → MeMarketUpdate → Result (McastSocket MdpMarketUpdate × ℕ)
emit (socket, size) u = do
  socket' ← send socket (record { seq_num = size; me_market_update = u }) sizeof_mdp_market_update
  ok (socket', size + 1)

-- The inner loop of `publishSnapshot`, with `n` ids left.
unfoldable pub publish_orders :
    SnapshotSynthesizer
    → TickerId
    → ℕ
    → OrderId
    → McastSocket MdpMarketUpdate × ℕ
    → Result (McastSocket MdpMarketUpdate × ℕ)
publish_orders s t zero o out = ok out
publish_orders s t (suc n) o out = elim (s.ticker_orders t o == null) [
  | true ↦ publish_orders s t n (o + 1) out
  | false ↦ do
    (socket, size) ← emit out (deref s.order_pool (s.ticker_orders t o))
    publish_orders s t n (o + 1) (flush socket, size)
]

-- The CLEAR that comes before the orders of an instrument.
abbrev pub clear_update : TickerId → MeMarketUpdate
clear_update t = record default_update { type = MarketUpdateType.clear; ticker_id = t }

-- The outer loop, with `n` instruments left.
unfoldable pub publish_tickers :
    SnapshotSynthesizer
    → ℕ
    → ℕ
    → TickerId
    → McastSocket MdpMarketUpdate × ℕ
    → Result (McastSocket MdpMarketUpdate × ℕ)
publish_tickers s zero ids t out = ok out
publish_tickers s (suc n) ids t out = do
  out' ← emit out (clear_update t)
  out'' ← publish_orders s t ids 0 out'
  publish_tickers s n ids (t + 1) out''

-- `{SNAPSHOT_START, last_inc_seq_num_}` and `{SNAPSHOT_END, last_inc_seq_num_}`.
abbrev pub bound_update : MarketUpdateType → ℕ → MeMarketUpdate
bound_update type last = record default_update { type = type; order_id = last }

-- `publishSnapshot`
unfoldable pub publish_snapshot : ℕ → ℕ → SnapshotSynthesizer → Result SnapshotSynthesizer
publish_snapshot tickers ids s = do
  out ←
      emit (s.snapshot_socket, 0) (bound_update MarketUpdateType.snapshot_start s.last_inc_seq_num)
  out' ← publish_tickers s tickers ids 0 out
  (socket, size) ← emit out' (bound_update MarketUpdateType.snapshot_end s.last_inc_seq_num)
  ok (record s { snapshot_socket = flush socket })

-- The first loop of `run`, with no writer between: a round for each element of the queue.
unfoldable pub read_updates : ℕ → SnapshotSynthesizer → Result SnapshotSynthesizer
read_updates zero s = elim (get_next_to_read s.snapshot_md_updates) [
  | none ↦ ok s
  | some m ↦ out_of_fuel
]
read_updates (suc n) s = elim (get_next_to_read s.snapshot_md_updates) [
  | none ↦ ok s
  | some m ↦ do
    s' ← add_to_snapshot s m
    q ← update_read_index s'.snapshot_md_updates
    read_updates n (record s' { snapshot_md_updates = q })
]

-- `60 * NANOS_TO_SECS`
abbrev pub snapshot_period : ℕ
snapshot_period = 60000000000

-- A round of `run`. The clock is read for the test, and again for the record.
unfoldable pub run_round : ℕ → ℕ → SnapshotSynthesizer → Result SnapshotSynthesizer
run_round now later s = do
  s' ← read_updates s.snapshot_md_updates.num_elements s
  elim (ltb snapshot_period (now - s'.last_snapshot_time)) [
    | true ↦
        publish_snapshot me_max_tickers me_max_order_ids (record s' { last_snapshot_time = later })
    | false ↦ ok s'
  ]
