-- ===== src/Exchange/MarketData/Taken.antt =====
-- The orders that a reader of the snapshot and of the updates behind it holds, against those that
-- exchange/market_data/snapshot_synthesizer.cpp holds once it has taken the same updates.
use low_latency_trading_syst.Prelude.{
  ℕ, ◌+◌, ◌≡◌, ◌≢◌, ◌<◌, refl, sym, ap, ◌∙◌, arith, List, [], ◌∷◌, ◌++◌, All, Result, ok, ◌>>=◌,
  >>=-ok, ok-injective,
}
use low_latency_trading_syst.Common.Types.{TickerId, OrderId}
use low_latency_trading_syst.Common.MemPool.Defs.{null}
use low_latency_trading_syst.Exchange.Messages.{
  MarketUpdateType, MeMarketUpdate, MdpMarketUpdate, messages,
}
use low_latency_trading_syst.Exchange.MarketData.Synthesizer.{SnapshotSynthesizer, add_to_snapshot}
use low_latency_trading_syst.Exchange.MarketData.Live.{Live, live, live_step, IsSound}
use low_latency_trading_syst.Exchange.MarketData.Follow.{add_to_snapshot-Follows}
use low_latency_trading_syst.Exchange.MarketData.Cycle.{snapshot_body}
use low_latency_trading_syst.Exchange.MarketData.Replay.{
  replay_step, replay, replay-append, replay-snapshot_body,
}

-- The synthesizer takes one message after the other.
unfoldable pub take_messages :
    SnapshotSynthesizer → List MdpMarketUpdate → Result SnapshotSynthesizer
take_messages s [] = ok s
take_messages s (m ∷ ms) = (do s' ← add_to_snapshot s m; take_messages s' ms)

-- An update that the matching engine sends: it never clears an instrument.
abbrev pub IsUpdate : MeMarketUpdate → Type 0
IsUpdate u = u.type ≢ MarketUpdateType.clear

-- No order of the instrument has an id of `ids` or more.
abbrev pub Within : ℕ → SnapshotSynthesizer → TickerId → Type 0
Within ids s t = (o : OrderId) → s.ticker_orders t o ≢ null → o < ids

-- What becomes of an instrument depends on nothing but the instrument.
replay_step-agree :
    (f g : Live) (u : MeMarketUpdate) (t : TickerId)
    → ((o : OrderId) → f t o ≡ g t o)
    → (o : OrderId) → replay_step f u t o ≡ replay_step g u t o
replay_step-agree f g u t h o = ground (arith, h o, h u.order_id)

replay-agree :
    (us : List MeMarketUpdate) (f g : Live) (t : TickerId)
    → ((o : OrderId) → f t o ≡ g t o)
    → (o : OrderId) → replay f us t o ≡ replay g us t o
unfolding replay
replay-agree [] f g t h o = h o
replay-agree (u ∷ us) f g t h o =
    replay-agree us (replay_step f u) (replay_step g u) t (λ o'. replay_step-agree f g u t h o') o

live_step-replay_step :
    (m : Live) (u : MeMarketUpdate) (t o : ℕ) → IsUpdate u → live_step m u t o ≡ replay_step m u t o
live_step-replay_step m u t o h = by u.type refl
  where
    by : (k : MarketUpdateType) → u.type ≡ k → live_step m u t o ≡ replay_step m u t o
    by MarketUpdateType.clear e = absurd (h e)
    by _ e = ground (arith, e)

take_messages-replay :
    (us : List MeMarketUpdate) (k : ℕ) (s s' : SnapshotSynthesizer)
    → IsSound s
    → All IsUpdate us
    → take_messages s (messages k us) ≡ ok s'
    → (t : TickerId) (o : OrderId) → live s' t o ≡ replay (live s) us t o
unfolding take_messages replay
take_messages-replay [] k s s' v h e t o = ap (λ x. live x t o) (sym (ok-injective e))
take_messages-replay (u ∷ us) k s s' v h e t o =
    let m : MdpMarketUpdate = record { seq_num = k; me_market_update = u } in
    let (s1, run, rest) = >>=-ok (add_to_snapshot s m) _ e in
    let (v1, step, number, last) = add_to_snapshot-Follows s s1 m v run in
    take_messages-replay us (k + 1) s1 s' v1 h.1 rest t o
    ∙ replay-agree us (live s1) (replay_step (live s) u) t
        (λ o'. step t o' ∙ live_step-replay_step (live s) u t o' h.0) o

-- A reader, whatever it held before, takes the snapshot of a well-formed synthesizer and then some
-- updates that clear nothing. If the synthesizer takes the same updates, then the reader
-- holds just the synthesizer's live orders of an instrument that is in the snapshot with all its ids.
pub snapshot_then_updates :
    (tickers ids k : ℕ) (s s' : SnapshotSynthesizer) (us : List MeMarketUpdate) (m : Live)
    (t : TickerId) (o : OrderId)
    → IsSound s
    → All IsUpdate us
    → t < tickers
    → Within ids s t
    → take_messages s (messages k us) ≡ ok s'
    → replay m (snapshot_body s tickers ids 0 ++ us) t o ≡ live s' t o
snapshot_then_updates tickers ids k s s' us m t o v h inside within e =
    ap (λ f. f t o) (replay-append m (snapshot_body s tickers ids 0) us)
    ∙ replay-agree us (replay m (snapshot_body s tickers ids 0)) (live s) t
        (λ o'. replay-snapshot_body s v tickers ids 0 m t o' ∙ ground (arith, within o')) o
    ∙ sym (take_messages-replay us k s s' v h e t o)
