-- ===== src/Exchange/OrderServer/Receive.antt =====
-- `recvCallback` of exchange/order_server/order_server.h: which requests reach the sequencer.
use low_latency_trading_syst.Prelude.{
  ℕ, suc, ◌+◌, ◌%◌, ◌≤◌, ◌<◌, ◌≡◌, ◌≢◌, refl, sym, ap, ◌∙◌, subst, ◌==◌, update, arith, ℤ, List, [],
  ◌∷◌, ◌++◌, length, length-append, map, append-nil, append_assoc, Bool-cases, inl, inr, ◌⊎◌,
  if◌then◌else◌, All, Part, Result, ok,
}
use low_latency_trading_syst.Common.Types.{ClientId, u64_mod, me_max_num_clients}
use low_latency_trading_syst.Common.MemPool.Defs.{Ptr, null}
use low_latency_trading_syst.Exchange.Messages.{OmClientRequest}
use low_latency_trading_syst.Exchange.OrderServer.Sequencer.{
  RecvTimeClientRequest, add_client_request, me_max_pending_requests,
}
use low_latency_trading_syst.Exchange.OrderServer.Server.{
  OrderServer, bind_socket, recv_request, recv_requests,
}

-- The sequence numbers of a client's requests in a list are those from `e` on, and `e'` is next.
abbrev pub Consecutive : ClientId → ℕ → List OmClientRequest → ℕ → Type 0
Consecutive c e [] e' = e ≡ e'
Consecutive c e (r ∷ rs) e' =
    if r.me_client_request.client_id == c
    then (r.seq_num ≡ e) × Consecutive c ((e + 1) % u64_mod) rs e'
    else Consecutive c e rs e'

-- The requests `fs` of those received have gone to the sequencer.
pub record Received (s : OrderServer) (socket : Ptr) (rx_time : ℤ) (rs : List OmClientRequest)
    (run : Result OrderServer) : Type 0 where
  pub server : OrderServer
  pub returns : run ≡ ok server
  pub forwarded : List OmClientRequest
  pub in_order : Part forwarded rs
  pub pending :
      server.fifo_sequencer.pending_client_requests
      ≡ s.fifo_sequencer.pending_client_requests
        ++ map (λ r. record { recv_time = rx_time; request = r.me_client_request }) forwarded
  pub consecutive :
      (c : ClientId)
      → Consecutive c (s.cid_next_exp_seq_num c) forwarded (server.cid_next_exp_seq_num c)
  pub own_socket : All (λ r. server.cid_tcp_socket r.me_client_request.client_id ≡ socket) forwarded
  pub bound :
      (c : ClientId) → s.cid_tcp_socket c ≢ null → server.cid_tcp_socket c ≡ s.cid_tcp_socket c

-- A request that is dropped, and one that is forwarded.
recv_request_cases :
    (s : OrderServer) (socket : Ptr) (rx_time : ℤ) (r : OmClientRequest)
    → r.me_client_request.client_id < me_max_num_clients
    → socket ≢ null
    → suc (length s.fifo_sequencer.pending_client_requests) ≤ me_max_pending_requests
    → let c = r.me_client_request.client_id in
      let b = bind_socket s socket c in
      (recv_request s socket rx_time r ≡ ok b)
      ⊎ ((r.seq_num ≡ s.cid_next_exp_seq_num c)
          × (b.cid_tcp_socket c ≡ socket)
          × (recv_request s socket rx_time r
              ≡ ok (record b {
                cid_next_exp_seq_num =
                    update s.cid_next_exp_seq_num c ((s.cid_next_exp_seq_num c + 1) % u64_mod);
                fifo_sequencer = record s.fifo_sequencer {
                  pending_client_requests =
                      s.fifo_sequencer.pending_client_requests
                      ++ record { recv_time = rx_time; request = r.me_client_request } ∷ [];
                };
              })))
unfolding recv_request bind_socket add_client_request
recv_request_cases s socket rx_time r known h room = ground arith

bind_socket-keeps :
    (s : OrderServer) (socket : Ptr) (c d : ClientId)
    → s.cid_tcp_socket d ≢ null
    → (bind_socket s socket c).cid_tcp_socket d ≡ s.cid_tcp_socket d
unfolding bind_socket update
bind_socket-keeps s socket c d h = ground arith

bind_socket-rest :
    (s : OrderServer) (socket : Ptr) (c : ClientId)
    → ((bind_socket s socket c).fifo_sequencer ≡ s.fifo_sequencer)
      × ((bind_socket s socket c).cid_next_exp_seq_num ≡ s.cid_next_exp_seq_num)
unfolding bind_socket
bind_socket-rest s socket c = ground arith

Consecutive-next :
    (c : ClientId) (r : OmClientRequest) (f : ClientId → ℕ) (fs : List OmClientRequest) (e' : ℕ)
    → r.seq_num ≡ f r.me_client_request.client_id
    → Consecutive c
        (update f r.me_client_request.client_id ((f r.me_client_request.client_id + 1) % u64_mod) c)
        fs
        e'
    → Consecutive c (f c) (r ∷ fs) e'
unfolding update
Consecutive-next c r f fs e' seq k = elim (Bool-cases (r.me_client_request.client_id == c)) [
  | inl mine ↦
      let same : r.me_client_request.client_id ≡ c = ground arith in
      rw mine (
        seq ∙ ap f same,
        subst (λ n. Consecutive c ((f n + 1) % u64_mod) fs e') same
            (subst (λ n. Consecutive c n fs e') (ground arith) k),
      )
  | inr other ↦ rw other (subst (λ n. Consecutive c n fs e') (ground arith) k)
]

module _ (s t : OrderServer) (socket : Ptr) (rx_time : ℤ) (r : OmClientRequest)
    (rs : List OmClientRequest) (step : recv_request s socket rx_time r ≡ ok t)
    (keeps : (c : ClientId) → s.cid_tcp_socket c ≢ null → t.cid_tcp_socket c ≡ s.cid_tcp_socket c)
    (rest : Received t socket rx_time rs (recv_requests t socket rx_time rs)) where
  stays :
      (c : ClientId) → s.cid_tcp_socket c ≢ null → rest.server.cid_tcp_socket c ≡ s.cid_tcp_socket c
  stays c ne = rest.bound c (ground (arith, keeps c ne)) ∙ keeps c ne

  Received-skip :
      t.fifo_sequencer ≡ s.fifo_sequencer
      → t.cid_next_exp_seq_num ≡ s.cid_next_exp_seq_num
      → Received s socket rx_time (r ∷ rs) (recv_requests s socket rx_time (r ∷ rs))
  unfolding recv_requests
  Received-skip fifo exp = record {
    server = rest.server;
    returns = rw step rest.returns;
    forwarded = rest.forwarded;
    in_order = Part.skip r rest.in_order;
    pending =
        rest.pending
        ∙ ap
            (λ f.
              f.pending_client_requests
              ++ map (λ x. record { recv_time = rx_time; request = x.me_client_request })
                  rest.forwarded)
            fifo;
    consecutive = λ c.
        subst (λ f. Consecutive c (f c) rest.forwarded (rest.server.cid_next_exp_seq_num c)) exp
          (rest.consecutive c);
    own_socket = rest.own_socket;
    bound = stays;
  }

  Received-keep :
      let c = r.me_client_request.client_id in
      socket ≢ null
      → r.seq_num ≡ s.cid_next_exp_seq_num c
      → t.cid_tcp_socket c ≡ socket
      → t.fifo_sequencer.pending_client_requests
        ≡ s.fifo_sequencer.pending_client_requests
          ++ record { recv_time = rx_time; request = r.me_client_request } ∷ []
      → t.cid_next_exp_seq_num
        ≡ update s.cid_next_exp_seq_num c ((s.cid_next_exp_seq_num c + 1) % u64_mod)
      → Received s socket rx_time (r ∷ rs) (recv_requests s socket rx_time (r ∷ rs))
  unfolding recv_requests
  Received-keep h seq own fifo exp =
      let message : OmClientRequest → RecvTimeClientRequest =
        λ x. record { recv_time = rx_time; request = x.me_client_request } in
      record {
        server = rest.server;
        returns = rw step rest.returns;
        forwarded = r ∷ rest.forwarded;
        in_order = Part.keep r rest.in_order;
        pending =
            rest.pending
            ∙ ap (λ l. l ++ map message rest.forwarded) fifo
            ∙ append_assoc s.fifo_sequencer.pending_client_requests (message r ∷ [])
                (map message rest.forwarded);
        consecutive = λ c.
            Consecutive-next c r s.cid_next_exp_seq_num rest.forwarded
              (rest.server.cid_next_exp_seq_num c) seq
              (subst (λ f. Consecutive c (f c) rest.forwarded (rest.server.cid_next_exp_seq_num c))
                exp (rest.consecutive c));
        own_socket =
            (rest.bound r.me_client_request.client_id (ground arith) ∙ own, rest.own_socket);
        bound = stays;
      }

-- From a socket that is not null, with room in the sequencer for all that were received, and with client
-- ids below ME_MAX_NUM_CLIENTS, the loop of `recvCallback` returns,
-- and forwards some of the requests in their order and with the receive time: each came over the socket
-- of its client, a client's have the sequence numbers that follow each other from the one expected, and
-- a client's socket never changes once it is bound.
pub recv_requests_lem :
    (s : OrderServer) (socket : Ptr) (rx_time : ℤ) (rs : List OmClientRequest)
    → All (λ r. r.me_client_request.client_id < me_max_num_clients) rs
    → socket ≢ null
    → length s.fifo_sequencer.pending_client_requests + length rs ≤ me_max_pending_requests
    → Received s socket rx_time rs (recv_requests s socket rx_time rs)
unfolding recv_requests
recv_requests_lem s socket rx_time [] known h room = record {
  server = s;
  returns = refl;
  forwarded = [];
  in_order = Part.none_left;
  pending = sym (append-nil s.fifo_sequencer.pending_client_requests);
  consecutive = λ c. refl;
  own_socket = tt;
  bound = λ c ne. refl;
}
recv_requests_lem s socket rx_time (r ∷ rs) known h room =
    elim (recv_request_cases s socket rx_time r known.0 h (omega (arith, room))) [
      | inl dropped ↦
          let t = bind_socket s socket r.me_client_request.client_id in
          let (fifo, exp) = bind_socket-rest s socket r.me_client_request.client_id in
          Received-skip s t socket rx_time r rs dropped
            (λ c ne. bind_socket-keeps s socket r.me_client_request.client_id c ne)
            (recv_requests_lem t socket rx_time rs known.1 h
              (omega (arith, room, ap (λ f. length f.pending_client_requests) fifo)))
            fifo exp
      | inr (seq, own, taken) ↦
          Received-keep s _ socket rx_time r rs taken
            (λ c ne. bind_socket-keeps s socket r.me_client_request.client_id c ne)
            (recv_requests_lem _ socket rx_time rs known.1 h (
              omega (
                arith,
                room,
                length-append s.fifo_sequencer.pending_client_requests
                    (record { recv_time = rx_time; request = r.me_client_request } ∷ []),
              )))
            h seq own refl refl
    ]
