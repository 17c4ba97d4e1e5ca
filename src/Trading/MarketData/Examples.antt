-- ===== src/Trading/MarketData/Examples.antt =====
-- Examples of the theorems on trading/market_data, and on it with exchange/market_data.
use low_latency_trading_syst.Prelude.{
  ℕ, ◌≡◌, refl, arith, true, false, leb, if◌then◌else◌, update, none, [], ◌∷◌, ◌++◌, ok, ◌⊎◌,
}
use low_latency_trading_syst.Common.LfQueue.Fifo.{contents, items, IsValid}
use low_latency_trading_syst.Common.LfQueue.Bulk.{Gained}
use low_latency_trading_syst.Exchange.Messages.{
  MarketUpdateType, MeMarketUpdate, messages, default_update,
}
use low_latency_trading_syst.Exchange.MarketData.Synthesizer.{bound_update}
use low_latency_trading_syst.Exchange.MarketData.Publisher.{MarketDataPublisher, run_round}
use low_latency_trading_syst.Exchange.MarketData.Live.{live}
use low_latency_trading_syst.Exchange.MarketData.Cycle.{live_orders, snapshot_body, cycle}
use low_latency_trading_syst.Exchange.MarketData.Replay.{replay}
use low_latency_trading_syst.Exchange.MarketData.Taken.{IsUpdate}
use low_latency_trading_syst.Exchange.MarketData.Examples.{
  empty_queue, feed, taken, taken-IsSound, taken-Within, changed, take_second, publisher,
}
use low_latency_trading_syst.Trading.MarketData.Consumer.{MarketDataConsumer, recv_updates}
use low_latency_trading_syst.Trading.MarketData.Recovery.{IsEvent, numbered}
use low_latency_trading_syst.Trading.MarketData.Stream.{waiting}
use low_latency_trading_syst.Trading.MarketData.Sync.{
  queued, Synced, Unsynced, recv_updates-in_sequence, recv_updates-gap, snapshot_cycle, recovers,
}
use low_latency_trading_syst.Trading.MarketData.EndToEnd.{feed_delivers, late_joiner}

abbrev consumer : MarketDataConsumer
consumer = record {
  next_exp_inc_seq_num = 1;
  incoming_md_updates = empty_queue default_update;
  in_recovery = false;
  subscribed = false;
  snapshot_queued_msgs = [];
  incremental_queued_msgs = [];
}

consumer-IsValid : IsValid consumer.incoming_md_updates
consumer-IsValid = ground arith

feed-IsEvent : (i : ℕ) → IsEvent (feed i)
feed-IsEvent i = (ground arith, ground arith)

feed-IsUpdate : (i : ℕ) → IsUpdate (feed i)
feed-IsUpdate i e = ground (arith, e)

recv_updates-in_sequence_example :
    (c' : MarketDataConsumer) × (recv_updates true consumer false (messages 1 (feed 1 ∷ []))
      ≡ ok c')
    × Gained consumer.incoming_md_updates c'.incoming_md_updates (feed 1 ∷ [])
    × (c'.next_exp_inc_seq_num ≡ 2)
    × (c'.in_recovery ≡ false)
recv_updates-in_sequence_example =
    recv_updates-in_sequence true consumer 1 (feed 1 ∷ []) refl refl consumer-IsValid (omega arith)
      (omega arith)

recv_updates-gap_example :
    recv_updates true consumer false (messages 2 (feed 2 ∷ feed 3 ∷ []))
    ≡ ok (queued consumer (numbered 2 (feed 2 ∷ feed 3 ∷ [])))
recv_updates-gap_example =
    recv_updates-gap consumer 2 (feed 2) (feed 3 ∷ []) refl (λ e. omega (arith, e))

-- The consumer with the numbers 2 and 4 queued: 3 is missing.
abbrev gapped : MarketDataConsumer
gapped = queued consumer ((2, feed 2) ∷ (4, feed 4) ∷ [])

abbrev start : MeMarketUpdate
start = bound_update MarketUpdateType.snapshot_start 1

abbrev end : MeMarketUpdate
end = bound_update MarketUpdateType.snapshot_end 1

snapshot_cycle_example :
    (c' : MarketDataConsumer) × (recv_updates true
        (waiting gapped [])
        true
        (messages 0 (start ∷ feed 1 ∷ end ∷ []))
      ≡ ok c')
    × (Synced gapped c' feed 1 (feed 1 ∷ []) ⊎ Unsynced gapped c')
snapshot_cycle_example =
    snapshot_cycle true gapped start end (feed 1 ∷ []) feed refl refl (feed-IsEvent 1, tt)
      (omega arith) (refl, feed-IsEvent 2, (refl, feed-IsEvent 4, tt)) consumer-IsValid
      (omega arith) (omega arith)

recovers_example :
    (c1 c2 : MarketDataConsumer) × (recv_updates true consumer false
        (messages 2 (feed 2 ∷ feed 3 ∷ []))
      ≡ ok c1)
    × (recv_updates true c1 true (messages 0 (start ∷ feed 1 ∷ end ∷ [])) ≡ ok c2)
    × Synced consumer c2 feed 1 (feed 1 ∷ [])
    × (c2.next_exp_inc_seq_num ≡ (if leb 2 4 then 4 else 2))
recovers_example =
    recovers consumer 2 1 start end (feed 1 ∷ []) feed refl (λ e. omega (arith, e)) (omega arith)
      feed-IsEvent refl refl (feed-IsEvent 1, tt) (omega arith) consumer-IsValid (omega arith)
      (omega arith)

feed_delivers_example :
    (p' : MarketDataPublisher) × (c' : MarketDataConsumer) × (run_round publisher ≡ ok p')
    × (p'.incremental_socket.wire ≡ messages 1 (feed 1 ∷ []))
    × (recv_updates true consumer false (messages 1 (feed 1 ∷ [])) ≡ ok c')
    × Gained consumer.incoming_md_updates c'.incoming_md_updates (feed 1 ∷ [])
    × (c'.next_exp_inc_seq_num ≡ p'.next_inc_seq_num)
    × (c'.in_recovery ≡ false)
unfolding contents items
feed_delivers_example =
    feed_delivers true publisher consumer (feed 1 ∷ []) (ground arith) refl (ground arith)
      (omega arith) refl refl (omega arith) (omega arith) refl refl consumer-IsValid (omega arith)

late_joiner_example :
    (c1 c2 : MarketDataConsumer) × (recv_updates true consumer false (messages 2 (feed 2 ∷ []))
      ≡ ok c1)
    × (recv_updates true c1 true (messages 0 (cycle 1 2 taken)) ≡ ok c2)
    × Gained consumer.incoming_md_updates c2.incoming_md_updates
        (snapshot_body taken 1 2 0 ++ feed 2 ∷ [])
    × (replay (λ _ _. none) (snapshot_body taken 1 2 0 ++ feed 2 ∷ []) 0 1 ≡ live changed 0 1)
    × (c2.next_exp_inc_seq_num ≡ 3)
    × (c2.in_recovery ≡ false)
unfolding snapshot_body live_orders update
late_joiner_example =
    late_joiner consumer taken changed feed 2 0 1 1 2 (λ _ _. none) 0 1 refl (λ e. omega (arith, e))
      (omega arith) refl feed-IsEvent feed-IsUpdate taken-IsSound (omega arith) taken-Within
      take_second (omega arith) consumer-IsValid (omega arith) (omega arith)
