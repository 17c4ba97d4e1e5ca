-- ===== src/Exchange/MarketData/Replay.antt =====
-- What a reader of the feed makes of a snapshot cycle of exchange/market_data/snapshot_synthesizer.cpp.
use low_latency_trading_syst.Prelude.{
  ℕ, zero, suc, ◌+◌, ◌*◌, ok, ◌≡◌, ◌<◌, refl, ap, ◌∙◌, true, false, not, ◌&&◌, ◌==◌, leb, ltb,
  if◌then◌else◌, arith, Bool-cases, inl, inr, none, some, List, [], ◌∷◌, ◌++◌,
}
use low_latency_trading_syst.Common.Types.{TickerId, OrderId}
use low_latency_trading_syst.Common.MemPool.Defs.{null, deref}
use low_latency_trading_syst.Common.McastSocket.{McastSocket, mcast_buffer_size}
use low_latency_trading_syst.Exchange.Messages.{
  MarketUpdateType, MeMarketUpdate, MdpMarketUpdate, messages,
}
use low_latency_trading_syst.Exchange.MarketData.Synthesizer.{
  SnapshotSynthesizer, clear_update, bound_update, publish_snapshot,
}
use low_latency_trading_syst.Exchange.MarketData.Live.{Live, live, live_step, IsSound}
use low_latency_trading_syst.Exchange.MarketData.Cycle.{
  live_orders, snapshot_body, cycle, publish_snapshot-cycle,
}

-- A reader's map of live orders: CLEAR empties an instrument.
abbrev pub replay_step : Live → MeMarketUpdate → Live
replay_step m u = elim u.type [
  | MarketUpdateType.clear ↦ λ t o. if t == u.ticker_id then none else m t o
  | MarketUpdateType.add ↦ live_step m u
  | MarketUpdateType.modify ↦ live_step m u
  | MarketUpdateType.cancel ↦ live_step m u
  | MarketUpdateType.invalid ↦ m
  | MarketUpdateType.trade ↦ m
  | MarketUpdateType.snapshot_start ↦ m
  | MarketUpdateType.snapshot_end ↦ m
]

unfoldable pub replay : Live → List MeMarketUpdate → Live
replay m [] = m
replay m (u ∷ us) = replay (replay_step m u) us

pub replay-append :
    (m : Live) (us vs : List MeMarketUpdate) → replay m (us ++ vs) ≡ replay (replay m us) vs
unfolding replay
replay-append m [] vs = refl
replay-append m (u ∷ us) vs = replay-append (replay_step m u) us vs

replay_step-add :
    (m : Live) (u : MeMarketUpdate) (t o : ℕ)
    → u.type ≡ MarketUpdateType.add
    → replay_step m u t o ≡ (if t == u.ticker_id && o == u.order_id then some u else m t o)
replay_step-add m u t o k = ground (arith, k)

module _ (s : SnapshotSynthesizer) (v : IsSound s) where
  live_orders-gone :
      (t : TickerId) (n : ℕ) (o : OrderId)
      → (s.ticker_orders t o == null) ≡ true
      → live_orders s t (suc n) o ≡ live_orders s t n (o + 1)
  unfolding live_orders
  live_orders-gone t n o gone = rw (live_orders, gone) refl

  live_orders-there :
      (t : TickerId) (n : ℕ) (o : OrderId)
      → (s.ticker_orders t o == null) ≡ false
      → live_orders s t (suc n) o
        ≡ deref s.order_pool (s.ticker_orders t o) ∷ live_orders s t n (o + 1)
  unfolding live_orders
  live_orders-there t n o there = rw (live_orders, there) refl

  replay-live_orders :
      (t : TickerId) (n : ℕ) (o : OrderId) (m : Live) (t' o' : ℕ)
      → replay m (live_orders s t n o) t' o' ≡ (
          if t' == t && leb o o' && ltb o' (o + n) && not (s.ticker_orders t o' == null)
          then live s t o'
          else m t' o')
  unfolding replay live_orders
  replay-live_orders t zero o m t' o' = ground arith
  replay-live_orders t (suc n) o m t' o' = elim (Bool-cases (s.ticker_orders t o == null)) [
    | inl gone ↦
        ap (λ l. replay m l t' o') (live_orders-gone t n o gone)
        ∙ replay-live_orders t n (o + 1) m t' o'
        ∙ ground (arith, gone)
    | inr there ↦
        let u = deref s.order_pool (s.ticker_orders t o) in
        let name = v.named t o (ground (arith, there)) in
        ap (λ l. replay m l t' o') (live_orders-there t n o there)
        ∙ replay-live_orders t n (o + 1) (replay_step m u) t' o'
        ∙ ground (arith, there, replay_step-add m u t' o' name.0, name)
  ]

  pub replay-snapshot_body :
      (n ids : ℕ) (t : TickerId) (m : Live) (t' o' : ℕ)
      → replay m (snapshot_body s n ids t) t' o' ≡ (
          if leb t t' && ltb t' (t + n)
          then (if ltb o' ids then live s t' o' else none)
          else m t' o')
  unfolding replay snapshot_body
  replay-snapshot_body zero ids t m t' o' = ground arith
  replay-snapshot_body (suc n) ids t m t' o' =
      let m1 = replay_step m (clear_update t) in
      ap (λ f. f t' o') (replay-append m1 (live_orders s t ids 0) (snapshot_body s n ids (t + 1)))
      ∙ replay-snapshot_body n ids (t + 1) (replay m1 (live_orders s t ids 0)) t' o'
      ∙ ground (arith, replay-live_orders t ids 0 m1 t' o')

  -- The whole cycle.
  replay-cycle :
      (tickers ids : ℕ) (m : Live) (t o : ℕ)
      → t < tickers
      → replay m (cycle tickers ids s) t o ≡ (if ltb o ids then live s t o else none)
  unfolding replay cycle
  replay-cycle tickers ids m t o h =
      ap (λ f. f t o)
        (replay-append m (snapshot_body s tickers ids 0)
          (bound_update MarketUpdateType.snapshot_end s.last_inc_seq_num ∷ []))
      ∙ replay-snapshot_body tickers ids 0 m t o
      ∙ ground arith

  -- From an empty buffer with room for the cycle, `publishSnapshot` of a well-formed synthesizer returns and
  -- hands messages to the kernel, numbered from 0. Whatever a reader of them held before, it holds then just
  -- the synthesizer's live orders, for each instrument and id of the cycle, and of the instruments of the
  -- cycle no order with another id. Nothing but the socket has changed.
  pub replay-publish_snapshot :
      (tickers ids : ℕ)
      → s.snapshot_socket.outbound ≡ []
      → s.snapshot_socket.next_send_valid_index ≡ 0
      → 42 * tickers + 84 < mcast_buffer_size
      → (socket : McastSocket MdpMarketUpdate) × (us : List MeMarketUpdate) × (publish_snapshot
            tickers ids s
          ≡ ok (record s { snapshot_socket = socket }))
        × (socket.wire ≡ s.snapshot_socket.wire ++ messages 0 us)
        × ((m : Live) (t o : ℕ)
            → t < tickers
            → replay m us t o ≡ (if ltb o ids then live s t o else none))
  replay-publish_snapshot tickers ids none_left empty room =
      let (socket, run, wire, _) = publish_snapshot-cycle tickers ids s none_left empty room in
      (socket, cycle tickers ids s, run, wire, replay-cycle tickers ids)
