-- ===== src/Exchange/MarketData/Cycle.antt =====
-- The snapshot cycle that `publishSnapshot` of exchange/market_data/snapshot_synthesizer.cpp sends.
use low_latency_trading_syst.Prelude.{
  ℕ, zero, suc, ◌+◌, ◌*◌, ◌≡◌, ◌≤◌, ◌<◌, refl, sym, ap, ap₂, ◌∙◌, subst, true, false, ◌==◌, arith,
  Bool-cases, inl, inr, Result, ok, ◌>>=◌, >>=_assoc, List, [], ◌∷◌, ◌++◌, length, length-append,
  append-nil, append_assoc,
}
use low_latency_trading_syst.Common.Types.{TickerId, OrderId}
use low_latency_trading_syst.Common.MemPool.Defs.{null, deref}
use low_latency_trading_syst.Common.McastSocket.{McastSocket, mcast_buffer_size, send, flush}
use low_latency_trading_syst.Exchange.Messages.{
  MarketUpdateType, MeMarketUpdate, MdpMarketUpdate, messages,
}
use low_latency_trading_syst.Exchange.MarketData.Synthesizer.{
  SnapshotSynthesizer, emit, publish_orders, publish_tickers, publish_snapshot, clear_update,
  bound_update,
}

-- The live orders of an instrument with the `n` ids from `o` on.
unfoldable pub live_orders : SnapshotSynthesizer → TickerId → ℕ → OrderId → List MeMarketUpdate
live_orders s t zero o = []
live_orders s t (suc n) o = elim (s.ticker_orders t o == null) [
  | true ↦ live_orders s t n (o + 1)
  | false ↦ deref s.order_pool (s.ticker_orders t o) ∷ live_orders s t n (o + 1)
]

-- For each of the `n` instruments from `t` on, a CLEAR and its live orders.
unfoldable pub snapshot_body : SnapshotSynthesizer → ℕ → ℕ → TickerId → List MeMarketUpdate
snapshot_body s zero ids t = []
snapshot_body s (suc n) ids t =
    clear_update t ∷ (live_orders s t ids 0 ++ snapshot_body s n ids (t + 1))

-- All that has been sent through a socket, and what of it is in the kernel's hands.
abbrev pub sent : McastSocket MdpMarketUpdate → List MdpMarketUpdate
sent socket = socket.wire ++ socket.outbound

abbrev Out : Type 0
Out = McastSocket MdpMarketUpdate × ℕ

-- `us` has been sent, with the next numbers, and the buffer holds at most `bound` bytes.
record Emitted (out : Out) (run : Result Out) (us : List MeMarketUpdate) (bound : ℕ) : Type 0 where
  pub after : Out
  pub returns : run ≡ ok after
  pub sending : sent after.0 ≡ sent out.0 ++ messages out.1 us
  pub numbers : after.1 ≡ out.1 + length us
  pub buffered : after.0.next_send_valid_index ≤ bound

messages-append :
    (k : ℕ) (us vs : List MeMarketUpdate)
    → messages k (us ++ vs) ≡ messages k us ++ messages (k + length us) vs
messages-append k [] vs = ap (λ i. messages i vs) (omega arith)
messages-append k (u ∷ us) vs =
    ap (λ l. record { seq_num = k; me_market_update = u } ∷ l)
      (messages-append (k + 1) us vs ∙ ap (λ i. messages (k + 1) us ++ messages i vs) (omega arith))

-- One step after another.
Emitted-then :
    (out : Out) (run : Result Out) (next : Out → Result Out) (us vs : List MeMarketUpdate) (b d : ℕ)
    (first : Emitted out run us b)
    → Emitted first.after (next first.after) vs d
    → Emitted out (run >>= next) (us ++ vs) d
Emitted-then out run next us vs b d first rest = record {
  after = rest.after;
  returns = ap (λ r. r >>= next) first.returns ∙ rest.returns;
  sending =
      rest.sending
      ∙ ap₂ (λ l i. l ++ messages i vs) first.sending first.numbers
      ∙ append_assoc (sent out.0) (messages out.1 us) (messages (out.1 + length us) vs)
      ∙ ap (λ l. sent out.0 ++ l) (sym (messages-append out.1 us vs));
  numbers = rest.numbers ∙ omega (arith, first.numbers, length-append us vs);
  buffered = rest.buffered;
}

emit-Emitted :
    (out : Out) (u : MeMarketUpdate) (b : ℕ)
    → out.0.next_send_valid_index + 42 ≤ b
    → b < mcast_buffer_size
    → Emitted out (emit out u) (u ∷ []) b
unfolding emit send
emit-Emitted (socket, size) u b h k = record {
  after = (
    record socket {
      outbound = socket.outbound ++ record { seq_num = size; me_market_update = u } ∷ [];
      next_send_valid_index = socket.next_send_valid_index + 42;
    },
    size + 1,
  );
  returns = ground arith;
  sending = sym (
      append_assoc socket.wire socket.outbound
        (record { seq_num = size; me_market_update = u } ∷ []));
  numbers = refl;
  buffered = h;
}

-- What is sent from a flushed buffer is sent from before.
flush-Emitted :
    (out : Out) (run : Result Out) (us : List MeMarketUpdate) (b : ℕ)
    → Emitted (flush out.0, out.1) run us b
    → Emitted out run us b
unfolding flush
flush-Emitted out run us b r = record {
  after = r.after;
  returns = r.returns;
  sending = r.sending ∙ ap (λ l. l ++ messages out.1 us) (append-nil (sent out.0));
  numbers = r.numbers;
  buffered = r.buffered;
}

none-Emitted : (out : Out) (b : ℕ) → out.0.next_send_valid_index ≤ b → Emitted out (ok out) [] b
none-Emitted out b h = record {
  after = out;
  returns = refl;
  sending = sym (append-nil (sent out.0));
  numbers = omega arith;
  buffered = h;
}

Emitted-subst :
    {out : Out} {run run' : Result Out} {us us' : List MeMarketUpdate} {b : ℕ}
    → run ≡ run'
    → us ≡ us'
    → Emitted out run us b
    → Emitted out run' us' b
Emitted-subst {out} {run} {us' = us'} {b} e f r =
    subst (λ x. Emitted out x us' b) e (subst (λ l. Emitted out run l b) f r)

publish_orders-Emitted :
    (s : SnapshotSynthesizer) (t : TickerId) (n : ℕ) (o : OrderId) (out : Out) (b : ℕ)
    → out.0.next_send_valid_index ≤ b
    → b + 42 < mcast_buffer_size
    → Emitted out (publish_orders s t n o out) (live_orders s t n o) b
unfolding publish_orders live_orders
publish_orders-Emitted s t zero o out b h k = none-Emitted out b h
publish_orders-Emitted s t (suc n) o out b h k = elim (Bool-cases (s.ticker_orders t o == null)) [
  | inl gone ↦
      Emitted-subst (rw (gone, publish_orders) refl) (rw (gone, live_orders) refl)
        (publish_orders-Emitted s t n (o + 1) out b h k)
  | inr there ↦
      let u = deref s.order_pool (s.ticker_orders t o) in
      let next = λ (x : Out). publish_orders s t n (o + 1) (flush x.0, x.1) in
      let first = emit-Emitted out u (b + 42) (omega (arith, h)) k in
      Emitted-subst (rw (there, publish_orders) refl) (rw (there, live_orders) refl) (
        Emitted-then out (emit out u) next (u ∷ []) (live_orders s t n (o + 1)) (b + 42) b first (
          flush-Emitted first.after (next first.after) (live_orders s t n (o + 1)) b (
            publish_orders-Emitted s t n (o + 1) (flush first.after.0, first.after.1) b
              (flushed first.after.0 b) k)))
]
  where
    flushed : (x : McastSocket MdpMarketUpdate) (c : ℕ) → (flush x).next_send_valid_index ≤ c
    flushed x c = unfold flush in omega arith

publish_tickers-Emitted :
    (s : SnapshotSynthesizer) (n ids : ℕ) (t : TickerId) (out : Out) (b : ℕ)
    → out.0.next_send_valid_index ≤ b
    → b + 42 * n + 42 < mcast_buffer_size
    → Emitted out (publish_tickers s n ids t out) (snapshot_body s n ids t) (b + 42 * n)
unfolding publish_tickers snapshot_body
publish_tickers-Emitted s zero ids t out b h k = none-Emitted out (b + 42 * 0) (omega (arith, h))
publish_tickers-Emitted s (suc n) ids t out b h k =
    let first = emit-Emitted out (clear_update t) (b + 42) (omega (arith, h)) (omega (arith, k)) in
    let second =
      publish_orders-Emitted s t ids 0 first.after (b + 42) first.buffered (omega (arith, k)) in
    let third =
      publish_tickers-Emitted s n ids (t + 1) second.after (b + 42) second.buffered
        (omega (arith, k)) in
    let tail =
      Emitted-then first.after (publish_orders s t ids 0 first.after)
        (λ x. publish_tickers s n ids (t + 1) x) (live_orders s t ids 0)
        (snapshot_body s n ids (t + 1)) (b + 42) (b + 42 + 42 * n) second third in
    let whole =
      Emitted-then out (emit out (clear_update t))
        (λ x. publish_orders s t ids 0 x >>= λ y. publish_tickers s n ids (t + 1) y)
        (clear_update t ∷ []) (live_orders s t ids 0 ++ snapshot_body s n ids (t + 1)) (b + 42)
        (b + 42 + 42 * n) first tail in
    subst (λ c. Emitted out (publish_tickers s (suc n) ids t out) (snapshot_body s (suc n) ids t) c)
      (omega arith) whole

pub flush_wire : (x : McastSocket MdpMarketUpdate) → (flush x).wire ≡ sent x
unfolding flush
flush_wire x = refl

-- The updates of a whole cycle.
unfoldable pub cycle : ℕ → ℕ → SnapshotSynthesizer → List MeMarketUpdate
cycle tickers ids s =
    bound_update MarketUpdateType.snapshot_start s.last_inc_seq_num
    ∷ (snapshot_body s tickers ids 0
        ++ bound_update MarketUpdateType.snapshot_end s.last_inc_seq_num ∷ [])

-- The steps of a cycle, with the last taken together.
grouped :
    (tickers ids : ℕ) (s : SnapshotSynthesizer)
    → publish_snapshot tickers ids s ≡ (
        (emit
            (s.snapshot_socket, 0)
            (bound_update MarketUpdateType.snapshot_start s.last_inc_seq_num)
          >>= λ x. publish_tickers s tickers ids 0 x >>= λ y.
              emit y (bound_update MarketUpdateType.snapshot_end s.last_inc_seq_num))
        >>= λ x. ok (record s { snapshot_socket = flush x.0 }))
unfolding publish_snapshot
grouped tickers ids s = simp >>=_assoc

-- From an empty buffer, `publishSnapshot` returns, and hands the whole cycle to the kernel, numbered from
-- 0: START with the number of the last update taken, for each instrument a CLEAR and its live orders by
-- their ids, and END. Nothing else of the synthesizer has changed.
pub publish_snapshot-cycle :
    (tickers ids : ℕ) (s : SnapshotSynthesizer)
    → s.snapshot_socket.outbound ≡ []
    → s.snapshot_socket.next_send_valid_index ≡ 0
    → 42 * tickers + 84 < mcast_buffer_size
    → (socket : McastSocket MdpMarketUpdate) × (publish_snapshot tickers ids s
        ≡ ok (record s { snapshot_socket = socket }))
      × (socket.wire ≡ s.snapshot_socket.wire ++ messages 0 (cycle tickers ids s))
      × (socket.outbound ≡ [])
unfolding cycle
publish_snapshot-cycle tickers ids s none_left empty room =
    let out : Out = (s.snapshot_socket, 0) in
    let start = bound_update MarketUpdateType.snapshot_start s.last_inc_seq_num in
    let end = bound_update MarketUpdateType.snapshot_end s.last_inc_seq_num in
    let first = emit-Emitted out start 42 (omega (arith, empty)) (omega arith) in
    let second =
      publish_tickers-Emitted s tickers ids 0 first.after 42 first.buffered (omega (arith, room)) in
    let third =
      emit-Emitted second.after end (42 + 42 * tickers + 42) (omega (arith, second.buffered))
        (omega (arith, room)) in
    let tail =
      Emitted-then first.after (publish_tickers s tickers ids 0 first.after) (λ x. emit x end)
        (snapshot_body s tickers ids 0) (end ∷ []) (42 + 42 * tickers) (42 + 42 * tickers + 42)
        second third in
    let whole =
      Emitted-then out (emit out start) (λ x. publish_tickers s tickers ids 0 x >>= λ y. emit y end)
        (start ∷ []) (snapshot_body s tickers ids 0 ++ end ∷ []) 42 (42 + 42 * tickers + 42) first
        tail in
    (
      flush whole.after.0,
      grouped tickers ids s
          ∙ ap (λ r. r >>= λ x. ok (record s { snapshot_socket = flush x.0 })) whole.returns,
      flush_wire whole.after.0
          ∙ whole.sending
          ∙ ap (λ l. l ++ messages 0 (start ∷ (snapshot_body s tickers ids 0 ++ end ∷ [])))
              (ap (λ l. s.snapshot_socket.wire ++ l) none_left ∙ append-nil s.snapshot_socket.wire),
      unfold flush in refl,
    )
