-- ===== src/Exchange/MarketData/Live.antt =====
-- The live orders that exchange/market_data/snapshot_synthesizer.cpp keeps, against a plain map.
use low_latency_trading_syst.Prelude.{
  >>=-ok, ok-injective, ℕ, ◌≤◌, ◌≡◌, ◌≢◌, refl, sym, ap, ◌∙◌, subst, true, false, ◌&&◌, ◌==◌,
  update, if◌then◌else◌, arith, inl, inr, ok, Option, none, some,
}
use low_latency_trading_syst.Common.Types.{TickerId, OrderId}
use low_latency_trading_syst.Common.MemPool.Defs.{Ptr, null, MemPool, deref, assign, deallocate}
use low_latency_trading_syst.Common.MemPool.Laws.{
  Allocated, allocate_cases, deallocate_lem, deallocate-IsValid,
}
use low_latency_trading_syst.Common.MemPool.Laws
use low_latency_trading_syst.Exchange.Messages.{MarketUpdateType, MeMarketUpdate}
use low_latency_trading_syst.Exchange.MarketData.Synthesizer.{
  SnapshotSynthesizer, put_ptr, check_order, add_order, modify_order, cancel_order,
}

abbrev pub Live : Type 0
Live = TickerId → OrderId → Option MeMarketUpdate

-- The live order of an instrument with an id.
abbrev pub live : SnapshotSynthesizer → Live
live s t o =
    if s.ticker_orders t o == null then none else some (deref s.order_pool (s.ticker_orders t o))

abbrev pub put : Live → TickerId → OrderId → Option MeMarketUpdate → Live
put m t o x t' o' = if t' == t && o' == o then x else m t' o'

abbrev pub revised : Option MeMarketUpdate → MeMarketUpdate → Option MeMarketUpdate
revised none u = none
revised (some old) u = some (record old { qty = u.qty; price = u.price })

-- What an update of the feed makes of the live orders.
abbrev pub live_step : Live → MeMarketUpdate → Live
live_step m u = elim u.type [
  | MarketUpdateType.add ↦ put m u.ticker_id u.order_id (some u)
  | MarketUpdateType.modify ↦ put m u.ticker_id u.order_id (revised (m u.ticker_id u.order_id) u)
  | MarketUpdateType.cancel ↦ put m u.ticker_id u.order_id none
  | MarketUpdateType.invalid ↦ m
  | MarketUpdateType.clear ↦ m
  | MarketUpdateType.trade ↦ m
  | MarketUpdateType.snapshot_start ↦ m
  | MarketUpdateType.snapshot_end ↦ m
]

-- The map holds blocks of the pool that are in use, each for one order that was added for it.
pub record IsSound (s : SnapshotSynthesizer) : Type 0 where
  pub pool : Laws.IsValid s.order_pool
  pub used :
      (t o : ℕ)
      → s.ticker_orders t o ≢ null
      → (s.ticker_orders t o ≤ s.order_pool.size)
        × ((s.order_pool.store (s.ticker_orders t o)).is_free ≡ false)
  pub apart :
      (t o t' o' : ℕ)
      → s.ticker_orders t o ≢ null
      → s.ticker_orders t o ≡ s.ticker_orders t' o'
      → (t ≡ t') × (o ≡ o')
  pub named :
      (t o : ℕ)
      → s.ticker_orders t o ≢ null
      → let u = deref s.order_pool (s.ticker_orders t o) in
        (u.type ≡ MarketUpdateType.add) × (u.ticker_id ≡ t) × (u.order_id ≡ o)

-- A step of the synthesizer follows a step of the map.
pub record Follows (s s' : SnapshotSynthesizer) (next : Live) : Type 0 where
  pub sound : IsSound s'
  pub map : (t o : ℕ) → live s' t o ≡ next t o
  pub last : s'.last_inc_seq_num ≡ s.last_inc_seq_num

put_ptr-at :
    (s : SnapshotSynthesizer) (t0 o0 t o : ℕ) (p : Ptr)
    → (put_ptr s t0 o0 p).ticker_orders t o
      ≡ (if t == t0 && o == o0 then p else s.ticker_orders t o)
unfolding put_ptr update
put_ptr-at s t0 o0 t o p = ground arith

put_ptr-last :
    (s : SnapshotSynthesizer) (t o : ℕ) (p : Ptr)
    → (put_ptr s t o p).last_inc_seq_num ≡ s.last_inc_seq_num
unfolding put_ptr
put_ptr-last s t o p = refl

module _ (s : SnapshotSynthesizer) (u : MeMarketUpdate) (v : IsSound s) where
  put_new :
      (p : Ptr) (pool : MemPool MeMarketUpdate)
      → u.type ≡ MarketUpdateType.add
      → Allocated s.order_pool u p pool
      → Follows s
          (record (put_ptr s u.ticker_id u.order_id p) { order_pool = pool })
          (put (live s) u.ticker_id u.order_id (some u))
  unfolding update deref
  put_new p pool k a =
      let at = λ (t : ℕ) (o : ℕ). put_ptr-at s u.ticker_id u.order_id t o p in
      let stored = λ (q : Ptr). ap (λ f. f q) a.written in
      record {
        sound = record {
          pool = a.valid;
          used = λ t o ne. rw (at t o) (
              ground (
                arith,
                v.used t o,
                at t o,
                stored (s.ticker_orders t o),
                stored p,
                v.pool.in_range,
              ));
          apart = λ t o t' o' ne e.
              ground (arith, v.apart t o t' o', at t o, at t' o', v.used t o, v.used t' o');
          named = λ t o ne. rw (at t o) (
              ground
                (arith, v.named t o, v.used t o, at t o, stored (s.ticker_orders t o), stored p));
        };
        map =
            λ t o. rw (at t o) (ground (arith, v.used t o, stored (s.ticker_orders t o), stored p));
        last = put_ptr-last s u.ticker_id u.order_id p;
      }

  abbrev held : Ptr
  held = s.ticker_orders u.ticker_id u.order_id

  check_order-held : (p : Ptr) → check_order s u ≡ ok p → (p ≡ held) × (held ≢ null)
  unfolding check_order
  check_order-held p e = ground arith

  put-none :
      held ≢ null
      → (pool : MemPool MeMarketUpdate) → deallocate s.order_pool held ≡ ok pool
      → Follows s
          (record (put_ptr s u.ticker_id u.order_id null) { order_pool = pool })
          (put (live s) u.ticker_id u.order_id none)
  unfolding update deref deallocate
  put-none ne pool e =
      let at = λ (t : ℕ) (o : ℕ). put_ptr-at s u.ticker_id u.order_id t o null in
      let stored : (q : Ptr)
          → pool.store q ≡ (
              if q == held
              then record (s.order_pool.store held) { is_free = true }
              else s.order_pool.store q) =
        λ q. ground (arith, e) in
      let size : pool.size ≡ s.order_pool.size = ground (arith, e) in
      record {
        sound = record {
          pool = deallocate-IsValid s.order_pool held v.pool e;
          used = λ t o live_ptr. rw (at t o) (
              ground (
                arith,
                v.used t o,
                at t o,
                stored (s.ticker_orders t o),
                size,
                v.apart t o u.ticker_id u.order_id,
              ));
          apart = λ t o t' o' live_ptr same. ground (arith, v.apart t o t' o', at t o, at t' o');
          named = λ t o live_ptr. rw (at t o) (
              ground (
                arith,
                v.named t o,
                at t o,
                stored (s.ticker_orders t o),
                v.apart t o u.ticker_id u.order_id,
              ));
        };
        map = λ t o. rw (at t o) (
            ground (
              arith,
              v.used t o,
              stored (s.ticker_orders t o),
              v.apart t o u.ticker_id u.order_id,
            ));
        last = put_ptr-last s u.ticker_id u.order_id null;
      }

  put-revised :
      held ≢ null
      → Follows s
          (record s {
            order_pool =
                assign s.order_pool held
                  (record (deref s.order_pool held) { qty = u.qty; price = u.price });
          })
          (put (live s) u.ticker_id u.order_id (revised (live s u.ticker_id u.order_id) u))
  unfolding update deref assign
  put-revised ne = record {
    sound = record {
      pool = record { in_range = v.pool.in_range; free = ground (arith, v.pool.free) };
      used = λ t o live_ptr. ground (arith, v.used t o);
      apart = λ t o t' o' live_ptr same. v.apart t o t' o' live_ptr same;
      named = λ t o live_ptr. ground (arith, v.named t o);
    };
    map = λ t o. ground (arith, v.apart t o u.ticker_id u.order_id);
    last = refl;
  }

  -- The three cases of `addToSnapshot` that change the orders.
  pub add_order-Follows :
      {s' : SnapshotSynthesizer}
      → u.type ≡ MarketUpdateType.add
      → add_order s u ≡ ok s'
      → Follows s s' (put (live s) u.ticker_id u.order_id (some u))
  unfolding add_order
  add_order-Follows {s'} k e = elim (allocate_cases s.order_pool u v.pool) [
    | inl full ↦ absurd (ground (arith, e, full))
    | inr (p, pool, run, a) ↦
        subst (λ x. Follows s x (put (live s) u.ticker_id u.order_id (some u)))
          (ok-injective (ground (arith, e, run))) (put_new p pool k a)
  ]

  pub cancel_order-Follows :
      {s' : SnapshotSynthesizer}
      → cancel_order s u ≡ ok s'
      → Follows s s' (put (live s) u.ticker_id u.order_id none)
  unfolding cancel_order
  cancel_order-Follows {s'} e =
      let (p, checked, run) = >>=-ok (check_order s u) _ e in
      let (same, ne) = check_order-held p checked in
      let (pool, freed, done) = >>=-ok (deallocate s.order_pool p) _ run in
      subst (λ x. Follows s x (put (live s) u.ticker_id u.order_id none)) (ok-injective done)
        (put-none ne pool (ap (deallocate s.order_pool) (sym same) ∙ freed))

  pub modify_order-Follows :
      {s' : SnapshotSynthesizer}
      → modify_order s u ≡ ok s'
      → Follows s s'
          (put (live s) u.ticker_id u.order_id (revised (live s u.ticker_id u.order_id) u))
  unfolding modify_order
  modify_order-Follows {s'} e =
      let (p, checked, run) = >>=-ok (check_order s u) _ e in
      let (same, ne) = check_order-held p checked in
      subst
        (λ x.
          Follows s x
            (put (live s) u.ticker_id u.order_id (revised (live s u.ticker_id u.order_id) u)))
        (ap
            (λ q. record s {
              order_pool =
                  assign s.order_pool q
                    (record (deref s.order_pool q) { qty = u.qty; price = u.price });
            })
            (sym same)
          ∙ ok-injective run)
        (put-revised ne)
