-- ===== src/Trading/MarketData/Sync.antt =====
-- The consumer of trading/market_data/market_data_consumer.cpp from an update in sequence, over a gap, to
-- the end of a recovery.
use low_latency_trading_syst.Prelude.{
  ℕ, zero, suc, ◌+◌, ◌%◌, ◌≤◌, ◌<◌, ◌≡◌, ◌≢◌, refl, ap, ◌∙◌, Bool, true, false, leb, if◌then◌else◌,
  arith, List, [], ◌∷◌, ◌++◌, length, All, Bool-cases, inl, inr, ◌⊎◌, append-nil, append_assoc,
  length-append, ok, ◌>>=◌,
}
use low_latency_trading_syst.Common.Types.{u64_mod}
use low_latency_trading_syst.Common.LfQueue.Defs.{push}
use low_latency_trading_syst.Common.LfQueue.Fifo.{IsValid, push-IsValid}
use low_latency_trading_syst.Common.LfQueue.Bulk.{
  push-sizes, Gained, Gained-none, Gained-push, push_all-Gained,
}
use low_latency_trading_syst.Exchange.Messages.{MeMarketUpdate, messages}
use low_latency_trading_syst.Trading.MarketData.Consumer.{
  QueuedMarketUpdates, insert, MarketDataConsumer, start_snapshot_sync, is_start, is_end,
  scan_incrementals, finish_sync, check_incrementals, check_snapshot, check_snapshot_sync,
  queue_message, recv_update, recv_updates,
}
use low_latency_trading_syst.Trading.MarketData.Recovery.{
  IsEvent, numbered, feed_from, insert-numbered, FromFeed, scan_incrementals-feed,
  scan_incrementals-numbered,
}
use low_latency_trading_syst.Trading.MarketData.Stream.{waiting, recv_updates-snapshot}

-- Outside a recovery, updates that come in sequence are all written to the engine's queue in their
-- order, and the consumer stays out of recovery.
pub recv_updates-in_sequence :
    (joins : Bool) (c : MarketDataConsumer) (k : ℕ) (us : List MeMarketUpdate)
    → c.in_recovery ≡ false
    → c.next_exp_inc_seq_num ≡ k
    → IsValid c.incoming_md_updates
    → c.incoming_md_updates.num_elements + length us ≤ c.incoming_md_updates.capacity
    → k + length us < u64_mod
    → (c' : MarketDataConsumer) × (recv_updates joins c false (messages k us) ≡ ok c')
      × Gained c.incoming_md_updates c'.incoming_md_updates us
      × (c'.next_exp_inc_seq_num ≡ k + length us)
      × (c'.in_recovery ≡ false)
unfolding recv_updates recv_update
recv_updates-in_sequence joins c k [] r e v room bound =
    (c, refl, Gained-none c.incoming_md_updates v, ground arith, r)
recv_updates-in_sequence joins c k (u ∷ us) r e v room bound =
    let q = c.incoming_md_updates in
    let here : q.num_elements < q.capacity = omega (arith, room) in
    let up : (c.next_exp_inc_seq_num + 1) % u64_mod ≡ k + 1 = omega (arith, bound, e) in
    let c1 : MarketDataConsumer = record c {
      next_exp_inc_seq_num = (c.next_exp_inc_seq_num + 1) % u64_mod;
      incoming_md_updates = push q u;
    } in
    let (c', run, gained, next, calm) =
      recv_updates-in_sequence joins c1 (k + 1) us r up (push-IsValid q v u here)
        (omega (arith, room, push-sizes q u v here)) (omega (arith, bound)) in
    let step : recv_update joins c false (record { seq_num = k; me_market_update = u }) ≡ ok c1 =
      ground (arith, e, r) in
    (
      c',
      ap (λ x. x >>= λ d. recv_updates joins d false (messages (k + 1) us)) step ∙ run,
      Gained-push q c'.incoming_md_updates u us v here gained,
      next ∙ omega arith,
      calm,
    )

-- The consumer in recovery, with these incremental updates queued and no snapshot begun.
abbrev pub queued : MarketDataConsumer → QueuedMarketUpdates → MarketDataConsumer
queued c m = record c {
  in_recovery = true;
  subscribed = true;
  snapshot_queued_msgs = [];
  incremental_queued_msgs = m;
}

recv_updates-queued :
    (joins : Bool) (c : MarketDataConsumer) (j k : ℕ) (done us : List MeMarketUpdate)
    → k ≡ j + length done
    → recv_updates joins (queued c (numbered j done)) false (messages k us)
      ≡ ok (queued c (numbered j (done ++ us)))
unfolding recv_updates recv_update queue_message check_snapshot_sync check_snapshot
recv_updates-queued joins c j k done [] e = rw append-nil refl
recv_updates-queued joins c j k done (u ∷ us) e = rw (insert-numbered k j done u e) (
    recv_updates-queued joins c j (k + 1) (done ++ u ∷ []) us
      (omega (arith, e, length-append done (u ∷ [])))
    ∙ ap (λ l. ok (queued c (numbered j l))) (append_assoc done (u ∷ []) us))

-- Outside a recovery, an update that is not the one expected begins a recovery: with the updates that
-- follow it, it is queued, and none is written to the engine's queue. The kernel must let the
-- snapshot socket join.
pub recv_updates-gap :
    (c : MarketDataConsumer) (j : ℕ) (u : MeMarketUpdate) (us : List MeMarketUpdate)
    → c.in_recovery ≡ false
    → j ≢ c.next_exp_inc_seq_num
    → recv_updates true c false (messages j (u ∷ us)) ≡ ok (queued c (numbered j (u ∷ us)))
unfolding recv_updates recv_update queue_message check_snapshot_sync check_snapshot
    start_snapshot_sync insert
recv_updates-gap c j u us r gap =
    let step : recv_update true c false (record { seq_num = j; me_market_update = u })
        ≡ ok (queued c ((j, u) ∷ [])) =
      ground (arith, r, gap) in
    ap (λ x. x >>= λ d. recv_updates true d false (messages (j + 1) us)) step
    ∙ recv_updates-queued true c j (j + 1) (u ∷ []) us (omega arith)

-- The recovery has ended: the snapshot and then the feed's updates from the one behind it on, with no
-- gap, are behind the elements of the engine's queue.
pub record Synced (c c' : MarketDataConsumer) (feed : ℕ → MeMarketUpdate) (last : ℕ)
    (body : List MeMarketUpdate) : Type 0 where
  pub count : ℕ
  pub delivered :
      Gained c.incoming_md_updates c'.incoming_md_updates (body ++ feed_from feed (last + 1) count)
  pub next : c'.next_exp_inc_seq_num ≡ last + 1 + count
  pub calm : c'.in_recovery ≡ false
  pub no_snapshot : c'.snapshot_queued_msgs ≡ []
  pub no_incrementals : c'.incremental_queued_msgs ≡ []

-- It goes on: nothing was written, and the incremental updates are still queued.
pub record Unsynced (c c' : MarketDataConsumer) : Type 0 where
  pub same_queue : c'.incoming_md_updates ≡ c.incoming_md_updates
  pub recovering : c'.in_recovery ≡ true
  pub no_snapshot : c'.snapshot_queued_msgs ≡ []
  pub same_incrementals : c'.incremental_queued_msgs ≡ c.incremental_queued_msgs

module _ (c : MarketDataConsumer) (q : QueuedMarketUpdates) (e : MeMarketUpdate)
    (body : List MeMarketUpdate) (feed : ℕ → MeMarketUpdate)
    (f : FromFeed feed c.incremental_queued_msgs) (v : IsValid c.incoming_md_updates)
    (room : c.incoming_md_updates.num_elements + length body + length c.incremental_queued_msgs
      ≤ c.incoming_md_updates.capacity)
    (bound : e.order_id + 1 + length c.incremental_queued_msgs < u64_mod) where
  at_end : (e.order_id + 1) % u64_mod ≡ e.order_id + 1
  at_end = omega (arith, bound)

  length-feed_from : (k n : ℕ) → length (feed_from feed k n) ≡ n
  length-feed_from k zero = refl
  length-feed_from k (suc n) = ap suc (length-feed_from (k + 1) n)

  check_incrementals-Synced :
      (scan_incrementals (e.order_id + 1) c.incremental_queued_msgs).complete ≡ true
      → Synced c (check_incrementals (waiting c q) body e) feed e.order_id body
        × ((check_incrementals (waiting c q) body e).next_exp_inc_seq_num
            ≡ (scan_incrementals (e.order_id + 1) c.incremental_queued_msgs).next_exp)
  unfolding check_incrementals finish_sync
  check_incrementals-Synced complete =
      let (n, events, next, few) =
        scan_incrementals-feed feed (e.order_id + 1) c.incremental_queued_msgs f
          (omega (arith, bound)) complete in
      rw at_end (
        rw complete (
          record {
            count = n;
            delivered = rw events (
                push_all-Gained c.incoming_md_updates (body ++ feed_from feed (e.order_id + 1) n) v
                  (omega (
                    arith,
                    room,
                    few,
                    length-append body (feed_from feed (e.order_id + 1) n),
                    length-feed_from (e.order_id + 1) n,
                  )));
            next = next;
            calm = refl;
            no_snapshot = refl;
            no_incrementals = refl;
          },
          refl,
        ))

  check_incrementals-Unsynced :
      (scan_incrementals (e.order_id + 1) c.incremental_queued_msgs).complete ≡ false
      → Unsynced c (check_incrementals (waiting c q) body e)
  unfolding check_incrementals finish_sync
  check_incrementals-Unsynced gap = rw at_end (
      rw gap (record {
        same_queue = refl;
        recovering = refl;
        no_snapshot = refl;
        same_incrementals = refl;
      }))

-- In a recovery with no snapshot begun, a whole snapshot cycle of START, `body` and END arrives, and the
-- body has neither START nor END. If the queued updates come from a feed without START and END, the engine's
-- queue is well formed and has room for the body and all queued updates, and the sequence numbers stay below
-- 2^64, then either the recovery ends, and the snapshot and the feed's updates from the one behind it on are
-- delivered without a gap; or nothing is delivered, the updates stay queued, and the next cycle is waited
-- for.
pub snapshot_cycle :
    (joins : Bool) (c : MarketDataConsumer) (s e : MeMarketUpdate) (body : List MeMarketUpdate)
    (feed : ℕ → MeMarketUpdate)
    → is_start s.type ≡ true
    → is_end e.type ≡ true
    → All IsEvent body
    → 2 + length body < u64_mod
    → FromFeed feed c.incremental_queued_msgs
    → IsValid c.incoming_md_updates
    → c.incoming_md_updates.num_elements + length body + length c.incremental_queued_msgs
      ≤ c.incoming_md_updates.capacity
    → e.order_id + 1 + length c.incremental_queued_msgs < u64_mod
    → (c' : MarketDataConsumer) × (recv_updates joins
          (waiting c [])
          true
          (messages 0 (s ∷ body ++ e ∷ []))
        ≡ ok c')
      × (Synced c c' feed e.order_id body ⊎ Unsynced c c')
snapshot_cycle joins c s e body feed hs he b small f v room bound =
    let q = numbered 0 (s ∷ body ++ e ∷ []) in
    (
      check_incrementals (waiting c q) body e,
      recv_updates-snapshot joins c s e body hs he b small,
      elim (Bool-cases (scan_incrementals (e.order_id + 1) c.incremental_queued_msgs).complete) [
        | inl complete ↦ inl (check_incrementals-Synced c q e body feed f v room bound complete).0
        | inr gap ↦ inr (check_incrementals-Unsynced c q e body feed f v room bound gap)
      ],
    )

length-numbered : (k : ℕ) (us : List MeMarketUpdate) → length (numbered k us) ≡ length us
length-numbered k [] = refl
length-numbered k (u ∷ us) = ap suc (length-numbered (k + 1) us)

FromFeed-numbered :
    (feed : ℕ → MeMarketUpdate) (k n : ℕ)
    → ((i : ℕ) → IsEvent (feed i))
    → FromFeed feed (numbered k (feed_from feed k n))
FromFeed-numbered feed k zero h = tt
FromFeed-numbered feed k (suc n) h = (refl, h k, FromFeed-numbered feed (k + 1) n h)

length_feed : (feed : ℕ → MeMarketUpdate) (k n : ℕ) → length (feed_from feed k n) ≡ n
length_feed feed k zero = refl
length_feed feed k (suc n) = ap suc (length_feed feed (k + 1) n)

-- A consumer that loses updates catches up. Outside a recovery, it receives the feed's updates from
-- `j` on, where another was expected, and then a snapshot cycle that was taken at `last`, no earlier
-- than just before `j`. Then it is out of the recovery, the snapshot and the feed's updates behind it
-- are delivered without a gap, and the update behind all that were received is expected next.
pub recovers :
    (c : MarketDataConsumer) (j n : ℕ) (s e : MeMarketUpdate) (body : List MeMarketUpdate)
    (feed : ℕ → MeMarketUpdate)
    → c.in_recovery ≡ false
    → j ≢ c.next_exp_inc_seq_num
    → j ≤ e.order_id + 1
    → ((i : ℕ) → IsEvent (feed i))
    → is_start s.type ≡ true
    → is_end e.type ≡ true
    → All IsEvent body
    → 2 + length body < u64_mod
    → IsValid c.incoming_md_updates
    → c.incoming_md_updates.num_elements + length body + suc n ≤ c.incoming_md_updates.capacity
    → e.order_id + 1 + suc n < u64_mod
    → let last = e.order_id in
      (c1 c2 : MarketDataConsumer) × (recv_updates true c false
          (messages j (feed_from feed j (suc n)))
        ≡ ok c1)
      × (recv_updates true c1 true (messages 0 (s ∷ body ++ e ∷ [])) ≡ ok c2)
      × Synced c c2 feed last body
      × (c2.next_exp_inc_seq_num ≡ (if leb (last + 1) (j + suc n) then j + suc n else last + 1))
recovers c j n s e body feed r gap reached fair hs he b small v room bound =
    let us = feed_from feed j (suc n) in
    let c1 = queued c (numbered j us) in
    let q = numbered 0 (s ∷ body ++ e ∷ []) in
    let size : length (numbered j us) ≡ suc n = length-numbered j us ∙ length_feed feed j (suc n) in
    let scan =
      scan_incrementals-numbered j (e.order_id + 1) us reached
        (omega (arith, bound, length_feed feed j (suc n))) in
    let (synced, next) =
      check_incrementals-Synced c1 q e body feed (FromFeed-numbered feed j (suc n) fair) v
        (omega (arith, room, size)) (omega (arith, bound, size)) scan.0 in
    (
      c1,
      check_incrementals (waiting c1 q) body e,
      recv_updates-gap c j (feed j) (feed_from feed (j + 1) n) r gap,
      recv_updates-snapshot true c1 s e body hs he b small,
      record {
        count = synced.count;
        delivered = synced.delivered;
        next = synced.next;
        calm = synced.calm;
        no_snapshot = synced.no_snapshot;
        no_incrementals = synced.no_incrementals;
      },
      next
          ∙ scan.1
          ∙ ap (λ k. if leb (e.order_id + 1) (j + k) then j + k else e.order_id + 1)
              (length_feed feed j (suc n)),
    )
