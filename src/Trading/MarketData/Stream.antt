-- ===== src/Trading/MarketData/Stream.antt =====
-- What the consumer of trading/market_data/market_data_consumer.cpp makes of whole streams: updates in
-- sequence, a gap, and a snapshot cycle.
use low_latency_trading_syst.Prelude.{
  ℕ, suc, ◌+◌, ◌<◌, ◌≡◌, refl, ap, ap₂, ◌∙◌, Bool, true, false, arith, List, [], ◌∷◌, ◌++◌, length,
  All, All-append, append-nil, append_assoc, length-append, ok, ◌>>=◌,
}
use low_latency_trading_syst.Common.Types.{u64_mod}
use low_latency_trading_syst.Exchange.Messages.{MarketUpdateType, MeMarketUpdate, messages}
use low_latency_trading_syst.Trading.MarketData.Consumer.{
  QueuedMarketUpdates, MarketDataConsumer, is_start, is_end, last_msg, check_incrementals,
  check_snapshot, check_snapshot_sync, queue_message, recv_update, recv_updates,
}
use low_latency_trading_syst.Trading.MarketData.Recovery.{
  IsEvent, numbered, insert-numbered, contains-next, events_of, scan_snapshot-numbered,
  last_msg-numbered, events_of-append, events_of-events,
}

-- The consumer in recovery, with these entries of the snapshot.
abbrev pub waiting : MarketDataConsumer → QueuedMarketUpdates → MarketDataConsumer
waiting c q = record c { in_recovery = true; snapshot_queued_msgs = q }

-- The last of a snapshot that has not ended.
last_msg-event :
    (first : MeMarketUpdate) (k : ℕ) (us : List MeMarketUpdate)
    → is_end first.type ≡ false
    → All IsEvent us
    → is_end (last_msg first (numbered k us)).type ≡ false
unfolding last_msg
last_msg-event first k [] h a = h
last_msg-event first k (u ∷ us) h a = last_msg-event u (k + 1) us a.0.1 a.1

start-ne-end : (t : MarketUpdateType) → is_start t ≡ true → is_end t ≡ false
start-ne-end t h = ground arith

events_of-start :
    (s : MeMarketUpdate) (us : List MeMarketUpdate)
    → is_start s.type ≡ true
    → events_of (s ∷ us) ≡ events_of us
events_of-start s us h = ground arith

events_of-cycle :
    (us : List MeMarketUpdate) (e : MeMarketUpdate)
    → All IsEvent us
    → is_end e.type ≡ true
    → events_of (us ++ e ∷ []) ≡ us
events_of-cycle us e a h =
    let none_left : events_of (e ∷ []) ≡ [] = ground arith in
    events_of-append us (e ∷ [])
    ∙ ap₂ (λ l k. l ++ k) (events_of-events us a) none_left
    ∙ append-nil us

module _ (c : MarketDataConsumer) (s : MeMarketUpdate) (us : List MeMarketUpdate)
    (start : is_start s.type ≡ true) (a : All IsEvent us) where
  check_snapshot-open : 1 + length us < u64_mod → check_snapshot c (numbered 0 (s ∷ us)) ≡ c
  unfolding check_snapshot
  check_snapshot-open room =
      let not_end = last_msg-event s 1 us (start-ne-end s.type start) a in
      rw (scan_snapshot-numbered 0 (s ∷ us) (omega (arith, room))) (ground (arith, start, not_end))

  check_snapshot-closed :
      (e : MeMarketUpdate)
      → is_end e.type ≡ true
      → 2 + length us < u64_mod
      → check_snapshot c (numbered 0 (s ∷ us ++ e ∷ [])) ≡ check_incrementals c us e
  unfolding check_snapshot
  check_snapshot-closed e h room =
      let last : last_msg s (numbered 1 (us ++ e ∷ [])) ≡ e = last_msg-numbered s e 1 us in
      let events : events_of (s ∷ us ++ e ∷ []) ≡ us =
        events_of-start s (us ++ e ∷ []) start ∙ events_of-cycle us e a h in
      rw
        (scan_snapshot-numbered 0 (s ∷ us ++ e ∷ [])
          (omega (arith, room, length-append us (e ∷ []))))
        (rw (last, events) (ground (arith, start, h)))

-- A message with the next number of the snapshot joins the others.
recv_update-next :
    (joins : Bool) (c : MarketDataConsumer) (us : List MeMarketUpdate) (u : MeMarketUpdate)
    → recv_update joins
        (waiting c (numbered 0 us))
        true
        (record { seq_num = length us; me_market_update = u })
      ≡ ok (check_snapshot (waiting c (numbered 0 (us ++ u ∷ []))) (numbered 0 (us ++ u ∷ [])))
unfolding recv_update queue_message check_snapshot_sync
recv_update-next joins c us u =
    rw (contains-next us) (rw (insert-numbered (length us) 0 us u (omega arith)) refl)

-- The rest of a snapshot cycle, `more` and its end, behind the start and `done`.
recv_updates-cycle :
    (joins : Bool) (c : MarketDataConsumer) (s e : MeMarketUpdate) (done more : List MeMarketUpdate)
    (k : ℕ)
    → is_start s.type ≡ true
    → is_end e.type ≡ true
    → All IsEvent done
    → All IsEvent more
    → k ≡ suc (length done)
    → k + suc (length more) < u64_mod
    → recv_updates joins (waiting c (numbered 0 (s ∷ done))) true (messages k (more ++ e ∷ []))
      ≡ ok (
          check_incrementals
            (waiting c (numbered 0 (s ∷ (done ++ more) ++ e ∷ [])))
            (done ++ more)
            e)
unfolding recv_updates
recv_updates-cycle joins c s e done [] k hs he a b at room =
    let run = recv_update-next joins c (s ∷ done) e in
    rw (at, append-nil done)
      (rw run (
        ap ok (
          check_snapshot-closed (waiting c (numbered 0 (s ∷ done ++ e ∷ []))) s done hs a e he
            (omega (arith, room, at)))))
recv_updates-cycle joins c s e done (u ∷ more) k hs he a b at room =
    let a' = All-append IsEvent done (u ∷ []) a (b.0, tt) in
    let next : List MeMarketUpdate = done ++ u ∷ [] in
    let longer : length next ≡ suc (length done) = omega (arith, length-append done (u ∷ [])) in
    let run =
      recv_update-next joins c (s ∷ done) u
      ∙ ap ok (
          check_snapshot-open (waiting c (numbered 0 (s ∷ next))) s next hs a'
            (omega (arith, room, at, longer))) in
    let rest =
      recv_updates-cycle joins c s e next more (k + 1) hs he a' b.1 (omega (arith, at, longer))
        (omega (arith, room)) in
    let again : next ++ more ≡ done ++ u ∷ more = append_assoc done (u ∷ []) more in
    ap
      (λ i.
        recv_update joins (waiting c (numbered 0 (s ∷ done))) true
          (record { seq_num = i; me_market_update = u })
        >>= λ c'. recv_updates joins c' true (messages (k + 1) (more ++ e ∷ [])))
      at
    ∙ ap (λ r. r >>= λ c'. recv_updates joins c' true (messages (k + 1) (more ++ e ∷ []))) run
    ∙ rest
    ∙ ap (λ l. ok (check_incrementals (waiting c (numbered 0 (s ∷ l ++ e ∷ []))) l e)) again

-- A whole cycle.
pub recv_updates-snapshot :
    (joins : Bool) (c : MarketDataConsumer) (s e : MeMarketUpdate) (body : List MeMarketUpdate)
    → is_start s.type ≡ true
    → is_end e.type ≡ true
    → All IsEvent body
    → 2 + length body < u64_mod
    → recv_updates joins (waiting c []) true (messages 0 (s ∷ body ++ e ∷ []))
      ≡ ok (check_incrementals (waiting c (numbered 0 (s ∷ body ++ e ∷ []))) body e)
unfolding recv_updates
recv_updates-snapshot joins c s e body hs he b room =
    let run =
      recv_update-next joins c [] s
      ∙ ap ok (check_snapshot-open (waiting c (numbered 0 (s ∷ []))) s [] hs tt (omega arith)) in
    ap (λ r. r >>= λ c'. recv_updates joins c' true (messages 1 (body ++ e ∷ []))) run
    ∙ recv_updates-cycle joins c s e [] body 1 hs he tt b refl (omega (arith, room))
