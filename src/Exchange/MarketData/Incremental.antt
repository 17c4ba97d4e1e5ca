-- ===== src/Exchange/MarketData/Incremental.antt =====
-- The incremental feed that `run` of exchange/market_data/market_data_publisher.cpp sends.
use low_latency_trading_syst.Prelude.{
  ℕ, suc, ◌+◌, ◌*◌, ◌%◌, ◌≤◌, ◌<◌, ◌≡◌, refl, sym, ap, ◌∙◌, subst, arith, List, [], ◌∷◌, ◌++◌,
  length, append-nil, append_assoc, Result, ok, ◌>>=◌, none, some,
}
use low_latency_trading_syst.Common.Types.{u64_mod}
use low_latency_trading_syst.Common.LfQueue.Defs.{
  LfQueue, push, get_next_to_read, update_read_index,
}
use low_latency_trading_syst.Common.LfQueue.Fifo.{
  contents, IsValid, push-IsValid, read_oldest, read_empty, advance, length-contents,
}
use low_latency_trading_syst.Common.LfQueue.Bulk.{push-sizes, Gained, Gained-none, Gained-push}
use low_latency_trading_syst.Common.McastSocket.{mcast_buffer_size, send, flush}
use low_latency_trading_syst.Exchange.Messages.{MeMarketUpdate, MdpMarketUpdate, messages}
use low_latency_trading_syst.Exchange.MarketData.Cycle.{sent, flush_wire}
use low_latency_trading_syst.Exchange.MarketData.Publisher.{
  MarketDataPublisher, publish_update, publish_updates, run_round,
}

-- `us` has been taken off the queue, sent with the next numbers, and passed on to the synthesizer.
pub record Published (p p' : MarketDataPublisher) (us : List MeMarketUpdate) : Type 0 where
  pub feed :
      sent p'.incremental_socket ≡ sent p.incremental_socket ++ messages p.next_inc_seq_num us
  pub forwarded :
      Gained p.snapshot_md_updates p'.snapshot_md_updates (messages p.next_inc_seq_num us)
  pub next : p'.next_inc_seq_num ≡ p.next_inc_seq_num + length us
  pub drained : contents p'.outgoing_md_updates ≡ []
  pub valid : IsValid p'.outgoing_md_updates

publish_updates-end :
    (p : MarketDataPublisher)
    → get_next_to_read p.outgoing_md_updates ≡ none
    → publish_updates 0 p ≡ ok p
unfolding publish_updates
publish_updates-end p e = rw (publish_updates, e) refl

publish_updates-next :
    (n : ℕ) (p p1 : MarketDataPublisher) (u : MeMarketUpdate)
    → get_next_to_read p.outgoing_md_updates ≡ some u
    → publish_update p u ≡ ok p1
    → publish_updates (suc n) p ≡ publish_updates n p1
unfolding publish_updates
publish_updates-next n p p1 u e step = rw (publish_updates, e, step) refl

publish_update_lem :
    (p : MarketDataPublisher) (u : MeMarketUpdate) (q : LfQueue MeMarketUpdate)
    → p.incremental_socket.next_send_valid_index + 42 < mcast_buffer_size
    → update_read_index p.outgoing_md_updates ≡ ok q
    → let m : MdpMarketUpdate = record { seq_num = p.next_inc_seq_num; me_market_update = u } in
      publish_update p u
      ≡ ok (record {
        next_inc_seq_num = (p.next_inc_seq_num + 1) % u64_mod;
        outgoing_md_updates = q;
        snapshot_md_updates = push p.snapshot_md_updates m;
        incremental_socket = record {
          outbound = p.incremental_socket.outbound ++ m ∷ [];
          next_send_valid_index = p.incremental_socket.next_send_valid_index + 42;
          wire = p.incremental_socket.wire;
        };
      })
unfolding publish_update send
publish_update_lem p u q room e = ground (arith, e, room)

publish_updates-Published :
    (p : MarketDataPublisher) (us : List MeMarketUpdate)
    → IsValid p.outgoing_md_updates
    → contents p.outgoing_md_updates ≡ us
    → IsValid p.snapshot_md_updates
    → p.snapshot_md_updates.num_elements + length us ≤ p.snapshot_md_updates.capacity
    → p.incremental_socket.next_send_valid_index + 42 * length us < mcast_buffer_size
    → p.next_inc_seq_num + length us < u64_mod
    → (p' : MarketDataPublisher) × (publish_updates (length us) p ≡ ok p') × Published p p' us
publish_updates-Published p [] v e w room buffer bound = (
  p,
  publish_updates-end p (read_empty p.outgoing_md_updates v e).0,
  record {
    feed = sym (append-nil (sent p.incremental_socket));
    forwarded = Gained-none p.snapshot_md_updates w;
    next = omega arith;
    drained = e;
    valid = v;
  },
)
publish_updates-Published p (u ∷ us) v e w room buffer bound =
    let (oldest, taken, left, v1) = read_oldest p.outgoing_md_updates v u us e in
    let k = p.next_inc_seq_num in
    let m : MdpMarketUpdate = record { seq_num = k; me_market_update = u } in
    let q = p.snapshot_md_updates in
    let here : q.num_elements < q.capacity = omega (arith, room) in
    let up : (k + 1) % u64_mod ≡ k + 1 = omega (arith, bound) in
    let p1 : MarketDataPublisher = record {
      next_inc_seq_num = (k + 1) % u64_mod;
      outgoing_md_updates = advance p.outgoing_md_updates v;
      snapshot_md_updates = push q m;
      incremental_socket = record {
        outbound = p.incremental_socket.outbound ++ m ∷ [];
        next_send_valid_index = p.incremental_socket.next_send_valid_index + 42;
        wire = p.incremental_socket.wire;
      };
    } in
    let (p', run, r) =
      publish_updates-Published p1 us v1 left (push-IsValid q w m here)
        (omega (arith, room, push-sizes q m w here)) (omega (arith, buffer))
        (omega (arith, bound, up)) in
    let here_step =
      publish_update_lem p u (advance p.outgoing_md_updates v) (omega (arith, buffer)) taken in
    let again = ap (λ i. messages i us) up in
    (
      p',
      publish_updates-next (length us) p p1 u oldest here_step ∙ run,
      record {
        feed =
            r.feed
            ∙ ap (λ l. sent p1.incremental_socket ++ l) again
            ∙ ap (λ l. l ++ messages (k + 1) us)
                (sym
                  (append_assoc p.incremental_socket.wire p.incremental_socket.outbound (m ∷ [])))
            ∙ append_assoc (sent p.incremental_socket) (m ∷ []) (messages (k + 1) us);
        forwarded =
            Gained-push q p'.snapshot_md_updates m (messages (k + 1) us) w here
              (subst (λ l. Gained (push q m) p'.snapshot_md_updates l) again r.forwarded);
        next = r.next ∙ omega (arith, up);
        drained = r.drained;
        valid = r.valid;
      },
    )

-- From an empty buffer, a round of `run` returns. It takes all updates off a well-formed queue, hands
-- them to the kernel in their order with the numbers from the next one on, and writes the same messages
-- behind the elements of the synthesizer's queue. That queue must be well formed with room for them.
pub run_round-Published :
    (p : MarketDataPublisher) (us : List MeMarketUpdate)
    → IsValid p.outgoing_md_updates
    → contents p.outgoing_md_updates ≡ us
    → IsValid p.snapshot_md_updates
    → p.snapshot_md_updates.num_elements + length us ≤ p.snapshot_md_updates.capacity
    → p.incremental_socket.outbound ≡ []
    → p.incremental_socket.next_send_valid_index ≡ 0
    → 42 * length us < mcast_buffer_size
    → p.next_inc_seq_num + length us < u64_mod
    → (p' : MarketDataPublisher) × (run_round p ≡ ok p')
      × (p'.incremental_socket.wire ≡ p.incremental_socket.wire ++ messages p.next_inc_seq_num us)
      × (p'.incremental_socket.outbound ≡ [])
      × Published p p' us
unfolding run_round
run_round-Published p us v e w room none_left empty buffer bound =
    let (p1, run, r) =
      publish_updates-Published p us v e w room (omega (arith, empty, buffer)) bound in
    let rounds : publish_updates p.outgoing_md_updates.num_elements p ≡ ok p1 =
      ap (λ n. publish_updates n p) (sym (length-contents p.outgoing_md_updates) ∙ ap length e)
      ∙ run in
    let wire : (flush p1.incremental_socket).wire
        ≡ p.incremental_socket.wire ++ messages p.next_inc_seq_num us =
      flush_wire p1.incremental_socket
      ∙ r.feed
      ∙ ap (λ l. l ++ messages p.next_inc_seq_num us)
          (ap (λ l. p.incremental_socket.wire ++ l) none_left
            ∙ append-nil p.incremental_socket.wire) in
    (
      record p1 { incremental_socket = flush p1.incremental_socket },
      ap
          (λ (x : Result MarketDataPublisher).
            x >>= λ y. ok (record y { incremental_socket = flush y.incremental_socket }))
          rounds,
      wire,
      unfold flush in refl,
      record {
        feed = unfold flush in (append-nil (sent p1.incremental_socket) ∙ r.feed);
        forwarded = r.forwarded;
        next = r.next;
        drained = r.drained;
        valid = r.valid;
      },
    )
