-- ===== src/Trading/MarketData/EndToEnd.antt =====
-- The market data of exchange/market_data as trading/market_data/market_data_consumer.cpp receives it.
use low_latency_trading_syst.Prelude.{
  ℕ, zero, suc, ◌+◌, ◌*◌, ◌≤◌, ◌<◌, ◌≡◌, ◌≢◌, refl, sym, ◌∙◌, subst, Bool, true, false, ◌==◌, arith,
  Bool-cases, inl, inr, List, [], ◌++◌, length, All, ok,
}
use low_latency_trading_syst.Common.Types.{TickerId, OrderId, u64_mod}
use low_latency_trading_syst.Common.MemPool.Defs.{null, deref}
use low_latency_trading_syst.Common.McastSocket.{mcast_buffer_size}
use low_latency_trading_syst.Common.LfQueue.Fifo.{contents, IsValid}
use low_latency_trading_syst.Common.LfQueue.Bulk.{Gained}
use low_latency_trading_syst.Exchange.Messages.{MarketUpdateType, MeMarketUpdate, messages}
use low_latency_trading_syst.Exchange.MarketData.Synthesizer.{SnapshotSynthesizer, bound_update}
use low_latency_trading_syst.Exchange.MarketData.Publisher.{MarketDataPublisher, run_round}
use low_latency_trading_syst.Exchange.MarketData.Incremental.{run_round-Published}
use low_latency_trading_syst.Exchange.MarketData.Live.{Live, live, IsSound}
use low_latency_trading_syst.Exchange.MarketData.Cycle.{live_orders, snapshot_body, cycle}
use low_latency_trading_syst.Exchange.MarketData.Replay.{replay}
use low_latency_trading_syst.Exchange.MarketData.Taken.{
  take_messages, IsUpdate, Within, snapshot_then_updates,
}
use low_latency_trading_syst.Trading.MarketData.Consumer.{MarketDataConsumer, recv_updates}
use low_latency_trading_syst.Trading.MarketData.Recovery.{IsEvent, feed_from}
use low_latency_trading_syst.Trading.MarketData.Sync.{recv_updates-in_sequence, recovers}

-- What a round of the publisher hands to the kernel for the incremental feed, a consumer that is in step
-- with it writes to the trade engine's queue: the matching engine's updates, each once and in their
-- order. Both are in step again then. The queues must be well formed and have room, and the publisher's
-- buffer must be empty.
pub feed_delivers :
    (joins : Bool) (p : MarketDataPublisher) (c : MarketDataConsumer) (us : List MeMarketUpdate)
    → IsValid p.outgoing_md_updates
    → contents p.outgoing_md_updates ≡ us
    → IsValid p.snapshot_md_updates
    → p.snapshot_md_updates.num_elements + length us ≤ p.snapshot_md_updates.capacity
    → p.incremental_socket.outbound ≡ []
    → p.incremental_socket.next_send_valid_index ≡ 0
    → 42 * length us < mcast_buffer_size
    → p.next_inc_seq_num + length us < u64_mod
    → c.in_recovery ≡ false
    → c.next_exp_inc_seq_num ≡ p.next_inc_seq_num
    → IsValid c.incoming_md_updates
    → c.incoming_md_updates.num_elements + length us ≤ c.incoming_md_updates.capacity
    → (p' : MarketDataPublisher) × (c' : MarketDataConsumer) × (run_round p ≡ ok p')
      × (p'.incremental_socket.wire ≡ p.incremental_socket.wire ++ messages p.next_inc_seq_num us)
      × (recv_updates joins c false (messages p.next_inc_seq_num us) ≡ ok c')
      × Gained c.incoming_md_updates c'.incoming_md_updates us
      × (c'.next_exp_inc_seq_num ≡ p'.next_inc_seq_num)
      × (c'.in_recovery ≡ false)
feed_delivers joins p c us v e w room none_left empty buffer bound calm step x space =
    let (p', run, wire, gone, r) =
      run_round-Published p us v e w room none_left empty buffer bound in
    let (c', read, gained, next, calm') =
      recv_updates-in_sequence joins c p.next_inc_seq_num us calm step x space bound in
    (p', c', run, wire, read, gained, next ∙ sym r.next, calm')

-- What a snapshot holds between its START and its END is passed on.
module _ (s : SnapshotSynthesizer) (v : IsSound s) where
  live_orders-IsEvent :
      (t : TickerId) (n : ℕ) (o : OrderId) (rest : List MeMarketUpdate)
      → All IsEvent rest
      → All IsEvent (live_orders s t n o ++ rest)
  unfolding live_orders
  live_orders-IsEvent t zero o rest h = h
  live_orders-IsEvent t (suc n) o rest h = elim (Bool-cases (s.ticker_orders t o == null)) [
    | inl gone ↦ rw (live_orders, gone) (live_orders-IsEvent t n (o + 1) rest h)
    | inr there ↦
        let kind : (deref s.order_pool (s.ticker_orders t o)).type ≡ MarketUpdateType.add =
          (v.named t o (ground (arith, there))).0 in
        rw (live_orders, there)
          ((ground (arith, kind), ground (arith, kind)), live_orders-IsEvent t n (o + 1) rest h)
  ]

  snapshot_body-IsEvent : (n ids : ℕ) (t : TickerId) → All IsEvent (snapshot_body s n ids t)
  unfolding snapshot_body
  snapshot_body-IsEvent zero ids t = tt
  snapshot_body-IsEvent (suc n) ids t = (
    (refl, refl),
    live_orders-IsEvent t ids 0 (snapshot_body s n ids (t + 1))
        (snapshot_body-IsEvent n ids (t + 1)),
  )

feed_from-IsUpdate :
    (feed : ℕ → MeMarketUpdate) (k n : ℕ)
    → ((i : ℕ) → IsUpdate (feed i))
    → All IsUpdate (feed_from feed k n)
feed_from-IsUpdate feed k zero h = tt
feed_from-IsUpdate feed k (suc n) h = (h k, feed_from-IsUpdate feed (k + 1) n h)

-- A consumer that missed a part of the feed comes to hold the exchange's orders. It receives the updates
-- from `j` on, where another was expected, and then the cycle of a well-formed synthesizer `s` that has
-- taken the feed at least up to the update before `j`. Then a reader of what the consumer writes to the
-- trade engine's queue holds just the live orders that the synthesizer has once it too has taken the
-- feed, as far as the consumer received it; the next update is expected, and the recovery is over.
-- The consumer is in no recovery before and can join the snapshot stream; the feed has no CLEAR, START or
-- END, and the synthesizer takes it; the instrument is in the snapshot with all its ids; the engine's queue
-- is well formed and has room for the snapshot and the updates received; the sequence numbers of the cycle
-- and the feed stay below 2^64.
pub late_joiner :
    (c : MarketDataConsumer) (s s' : SnapshotSynthesizer) (feed : ℕ → MeMarketUpdate)
    (j n k tickers ids : ℕ) (m : Live) (t : TickerId) (o : OrderId)
    → c.in_recovery ≡ false
    → j ≢ c.next_exp_inc_seq_num
    → j ≤ s.last_inc_seq_num + 1
    → s.last_inc_seq_num + 1 + k ≡ j + suc n
    → ((i : ℕ) → IsEvent (feed i))
    → ((i : ℕ) → IsUpdate (feed i))
    → IsSound s
    → t < tickers
    → Within ids s t
    → take_messages s
        (messages (s.last_inc_seq_num + 1) (feed_from feed (s.last_inc_seq_num + 1) k))
      ≡ ok s'
    → 2 + length (snapshot_body s tickers ids 0) < u64_mod
    → IsValid c.incoming_md_updates
    → c.incoming_md_updates.num_elements + length (snapshot_body s tickers ids 0) + suc n
      ≤ c.incoming_md_updates.capacity
    → s.last_inc_seq_num + 1 + suc n < u64_mod
    → let read = snapshot_body s tickers ids 0 ++ feed_from feed (s.last_inc_seq_num + 1) k in
      (c1 c2 : MarketDataConsumer) × (recv_updates true c false
          (messages j (feed_from feed j (suc n)))
        ≡ ok c1)
      × (recv_updates true c1 true (messages 0 (cycle tickers ids s)) ≡ ok c2)
      × Gained c.incoming_md_updates c2.incoming_md_updates read
      × (replay m read t o ≡ live s' t o)
      × (c2.next_exp_inc_seq_num ≡ j + suc n)
      × (c2.in_recovery ≡ false)
unfolding cycle
late_joiner c s s' feed j n k tickers ids m t o calm gap reached far event update v inside within
      taken small w room bound =
    let last = s.last_inc_seq_num in
    let body = snapshot_body s tickers ids 0 in
    let (c1, c2, first, second, synced, next) =
      recovers c j n (bound_update MarketUpdateType.snapshot_start last)
        (bound_update MarketUpdateType.snapshot_end last) body feed calm gap reached event refl refl
        (snapshot_body-IsEvent s v tickers ids 0) small w room bound in
    let end : c2.next_exp_inc_seq_num ≡ j + suc n = ground (arith, next, far) in
    let same : synced.count ≡ k = omega (arith, synced.next, end, far) in
    (
      c1,
      c2,
      first,
      second,
      subst
          (λ l.
            Gained c.incoming_md_updates c2.incoming_md_updates
              (body ++ feed_from feed (last + 1) l))
          same synced.delivered,
      snapshot_then_updates tickers ids (last + 1) s s' (feed_from feed (last + 1) k) m t o v
          (feed_from-IsUpdate feed (last + 1) k update) inside within taken,
      end,
      synced.calm,
    )
