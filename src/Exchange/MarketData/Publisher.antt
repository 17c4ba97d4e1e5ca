-- ===== src/Exchange/MarketData/Publisher.antt =====
-- exchange/market_data/market_data_publisher.h and market_data_publisher.cpp. The number and the
-- update go into the socket's buffer one behind the other, which is one packed `MDPMarketUpdate`.
use low_latency_trading_syst.Prelude.{
  ℕ, zero, suc, ◌+◌, ◌%◌, Result, ok, out_of_fuel, ◌>>=◌, none, some,
}
use low_latency_trading_syst.Common.Types.{u64_mod}
use low_latency_trading_syst.Common.LfQueue.Defs.{
  LfQueue, push, get_next_to_read, update_read_index,
}
use low_latency_trading_syst.Common.McastSocket.{McastSocket, send, flush}
use low_latency_trading_syst.Exchange.Messages.{MeMarketUpdate, MdpMarketUpdate}
use low_latency_trading_syst.Exchange.MarketData.Synthesizer.{sizeof_mdp_market_update}

pub record MarketDataPublisher : Type 0 where
  pub next_inc_seq_num : ℕ
  pub outgoing_md_updates : LfQueue MeMarketUpdate
  pub snapshot_md_updates : LfQueue MdpMarketUpdate
  pub incremental_socket : McastSocket MdpMarketUpdate

-- A round of the inner loop of `run`.
unfoldable pub publish_update : MarketDataPublisher → MeMarketUpdate → Result MarketDataPublisher
publish_update p u = do
  let m : MdpMarketUpdate = record { seq_num = p.next_inc_seq_num; me_market_update = u }
  socket ← send p.incremental_socket m sizeof_mdp_market_update
  q ← update_read_index p.outgoing_md_updates
  ok (record {
    next_inc_seq_num = (p.next_inc_seq_num + 1) % u64_mod;
    outgoing_md_updates = q;
    snapshot_md_updates = push p.snapshot_md_updates m;
    incremental_socket = socket;
  })

-- The inner loop, with no writer between: a round for each element of the queue.
unfoldable pub publish_updates : ℕ → MarketDataPublisher → Result MarketDataPublisher
publish_updates zero p = elim (get_next_to_read p.outgoing_md_updates) [
  | none ↦ ok p
  | some u ↦ out_of_fuel
]
publish_updates (suc n) p = elim (get_next_to_read p.outgoing_md_updates) [
  | none ↦ ok p
  | some u ↦ (do p' ← publish_update p u; publish_updates n p')
]

-- A round of `run`.
unfoldable pub run_round : MarketDataPublisher → Result MarketDataPublisher
run_round p = do
  p' ← publish_updates p.outgoing_md_updates.num_elements p
  ok (record p' { incremental_socket = flush p'.incremental_socket })
