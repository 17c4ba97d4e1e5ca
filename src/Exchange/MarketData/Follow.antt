-- ===== src/Exchange/MarketData/Follow.antt =====
-- `addToSnapshot` of exchange/market_data/snapshot_synthesizer.cpp as a step of the map of live orders.
use low_latency_trading_syst.Prelude.{
  ℕ, ◌+◌, ◌%◌, ◌≡◌, refl, sym, ap, ◌∙◌, subst, ◌==◌, ltb, arith, ok, assert, >>=-ok, ok-injective,
}
use low_latency_trading_syst.Common.Types.{u64_mod, me_max_tickers, me_max_order_ids}
use low_latency_trading_syst.Common.MemPool.Laws.{init-IsValid}
use low_latency_trading_syst.Common.LfQueue.Defs.{LfQueue}
use low_latency_trading_syst.Exchange.Messages.{
  MarketUpdateType, MeMarketUpdate, MdpMarketUpdate, default_update,
}
use low_latency_trading_syst.Exchange.MarketData.Synthesizer.{
  SnapshotSynthesizer, init, add_update, add_to_snapshot,
}
use low_latency_trading_syst.Exchange.MarketData.Live.{
  Live, live, live_step, IsSound, Follows, add_order-Follows, modify_order-Follows,
  cancel_order-Follows,
}

Follows-to :
    {s s' : SnapshotSynthesizer} {f : Live} (g : Live)
    → ((t o : ℕ) → g t o ≡ f t o)
    → Follows s s' f
    → Follows s s' g
Follows-to g h r = record { sound = r.sound; map = λ t o. r.map t o ∙ sym (h t o); last = r.last }

Follows-stay : (s : SnapshotSynthesizer) → IsSound s → Follows s s (live s)
Follows-stay s v = record { sound = v; map = λ t o. refl; last = refl }

module _ (s s' : SnapshotSynthesizer) (u : MeMarketUpdate) (v : IsSound s) where
  by_type :
      (k : MarketUpdateType)
      → u.type ≡ k
      → add_update s u ≡ ok s'
      → Follows s s' (live_step (live s) u)
  unfolding add_update
  by_type MarketUpdateType.add k e =
      Follows-to (live_step (live s) u) (λ t o. ground (arith, k))
        (add_order-Follows s u v k (ground (arith, e, k)))
  by_type MarketUpdateType.modify k e =
      Follows-to (live_step (live s) u) (λ t o. ground (arith, k))
        (modify_order-Follows s u v (ground (arith, e, k)))
  by_type MarketUpdateType.cancel k e =
      Follows-to (live_step (live s) u) (λ t o. ground (arith, k))
        (cancel_order-Follows s u v (ground (arith, e, k)))
  by_type _ k e =
      let same : s ≡ s' = ok-injective (ground (arith, e, k)) in
      subst (λ x. Follows s x (live_step (live s) u)) same
        (Follows-to (live_step (live s) u) (λ t o. ground (arith, k)) (Follows-stay s v))

-- A well-formed synthesizer that takes an update takes just the next of the feed, and follows it in the
-- map of live orders: an ADD puts its order, a MODIFY gives the order its quantity and price, a CANCEL
-- takes the order off, every other update leaves the orders, and the synthesizer is well formed.
pub add_to_snapshot-Follows :
    (s s' : SnapshotSynthesizer) (m : MdpMarketUpdate)
    → IsSound s
    → add_to_snapshot s m ≡ ok s'
    → IsSound s'
      × ((t o : ℕ) → live s' t o ≡ live_step (live s) m.me_market_update t o)
      × (m.seq_num ≡ (s.last_inc_seq_num + 1) % u64_mod)
      × (s'.last_inc_seq_num ≡ m.seq_num)
unfolding add_to_snapshot
add_to_snapshot-Follows s s' m v e =
    let (_, inside, e1) = >>=-ok (assert (ltb m.me_market_update.ticker_id me_max_tickers)) _ e in
    let (s1, run, e2) = >>=-ok (add_update s m.me_market_update) _ e1 in
    let (_, next, e3) = >>=-ok (assert (m.seq_num == (s1.last_inc_seq_num + 1) % u64_mod)) _ e2 in
    let r = by_type s s1 m.me_market_update v m.me_market_update.type refl run in
    let done : record s1 { last_inc_seq_num = m.seq_num } ≡ s' = ok-injective e3 in
    (
      subst IsSound done (record {
        pool = r.sound.pool;
        used = r.sound.used;
        apart = r.sound.apart;
        named = r.sound.named;
      }),
      subst (λ x. (t o : ℕ) → live x t o ≡ live_step (live s) m.me_market_update t o) done r.map,
      ground (arith, next, r.last),
      ap (λ x. x.last_inc_seq_num) (sym done),
    )

pub init-IsSound : (q : LfQueue MdpMarketUpdate) → IsSound (init q)
unfolding init
init-IsSound q = record {
  pool = init-IsValid default_update me_max_order_ids (omega arith);
  used = λ t o ne. absurd (ne refl);
  apart = λ t o t' o' ne e. absurd (ne refl);
  named = λ t o ne. absurd (ne refl);
}
