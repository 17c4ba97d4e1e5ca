-- ===== src/Trading/OrderGateway/EndToEnd.antt =====
-- The requests of trading/order_gw/order_gateway.cpp as exchange/order_server/order_server.h receives them.
use low_latency_trading_syst.Prelude.{
  ℕ, suc, ◌+◌, ◌%◌, ◌≤◌, ◌<◌, ◌≡◌, ◌≢◌, refl, sym, ap, ◌∙◌, subst, update, arith, ℤ, abs, ◌^◌, List,
  [], ◌∷◌, ◌++◌, length, length-append, map, append-nil, append_assoc, All, ok, ◌>>=◌,
}
use low_latency_trading_syst.Common.Types.{ClientId, u32_mod, u64_mod, me_max_num_clients}
use low_latency_trading_syst.Common.MemPool.Defs.{Ptr, null}
use low_latency_trading_syst.Common.LfQueue.Fifo.{contents, IsValid}
use low_latency_trading_syst.Common.TcpSocket.Sending.{stream}
use low_latency_trading_syst.Common.TcpSocket.Room.{HasRoom}
use low_latency_trading_syst.Exchange.Messages.{MeClientRequest, OmClientRequest, OmClientResponse}
use low_latency_trading_syst.Exchange.OrderServer.Sequencer.{
  RecvTimeClientRequest, add_client_request, me_max_pending_requests,
}
use low_latency_trading_syst.Exchange.OrderServer.Server.{
  OrderServer, Inbound, bind_socket, recv_request, recv_requests, recv_callback,
}
use low_latency_trading_syst.Trading.OrderGateway.Gateway.{OrderGateway, send_requests}
use low_latency_trading_syst.Trading.OrderGateway.Requests.{bytes_of, send_requests-stream}

-- The messages that the bytes of the gateway are: each request with its number, from `k` on.
abbrev pub numbered : ℕ → List MeClientRequest → List OmClientRequest
numbered k [] = []
numbered k (r ∷ rs) = record { seq_num = k; me_client_request = r } ∷ numbered (k + 1) rs

abbrev pub received_at : ℤ → MeClientRequest → RecvTimeClientRequest
received_at rx_time r = record { recv_time = rx_time; request = r }

-- The server when it has taken a request of the client.
abbrev taken : OrderServer → ClientId → ℤ → MeClientRequest → OrderServer
taken s c rx_time r = record s {
  cid_next_exp_seq_num = update s.cid_next_exp_seq_num c ((s.cid_next_exp_seq_num c + 1) % u64_mod);
  fifo_sequencer = record s.fifo_sequencer {
    pending_client_requests =
        s.fifo_sequencer.pending_client_requests ++ received_at rx_time r ∷ [];
  };
}

recv_request-taken :
    (s : OrderServer) (c : ClientId) (socket : Ptr) (rx_time : ℤ) (r : MeClientRequest) (k : ℕ)
    → r.client_id ≡ c
    → c < me_max_num_clients
    → socket ≢ null
    → s.cid_tcp_socket c ≡ socket
    → s.cid_next_exp_seq_num c ≡ k
    → suc (length s.fifo_sequencer.pending_client_requests) ≤ me_max_pending_requests
    → recv_request s socket rx_time (record { seq_num = k; me_client_request = r })
      ≡ ok (taken s c rx_time r)
unfolding recv_request bind_socket add_client_request
recv_request-taken s c socket rx_time r k own known ne bound next room =
    subst
      (λ d.
        d < me_max_num_clients
        → s.cid_tcp_socket d ≡ socket
        → s.cid_next_exp_seq_num d ≡ k
        → recv_request s socket rx_time (record { seq_num = k; me_client_request = r })
          ≡ ok (taken s d rx_time r))
      own (λ k e f. ground (arith, k, e, f, ne, room)) known bound next

next-taken :
    (s : OrderServer) (c : ClientId) (rx_time : ℤ) (r : MeClientRequest)
    → (taken s c rx_time r).cid_next_exp_seq_num c ≡ (s.cid_next_exp_seq_num c + 1) % u64_mod
unfolding update
next-taken s c rx_time r = ground arith

recv_requests_in_series :
    (s : OrderServer) (c : ClientId) (socket : Ptr) (rx_time : ℤ) (k : ℕ)
    (rs : List MeClientRequest)
    → All (λ r. r.client_id ≡ c) rs
    → c < me_max_num_clients
    → socket ≢ null
    → s.cid_tcp_socket c ≡ socket
    → s.cid_next_exp_seq_num c ≡ k
    → k + length rs < u64_mod
    → length s.fifo_sequencer.pending_client_requests + length rs ≤ me_max_pending_requests
    → (s' : OrderServer) × (recv_requests s socket rx_time (numbered k rs) ≡ ok s')
      × (s'.fifo_sequencer.pending_client_requests
          ≡ s.fifo_sequencer.pending_client_requests ++ map (received_at rx_time) rs)
      × (s'.cid_next_exp_seq_num c ≡ k + length rs)
unfolding recv_requests
recv_requests_in_series s c socket rx_time k [] own known ne bound next small room =
    (s, refl, sym (append-nil s.fifo_sequencer.pending_client_requests), omega (arith, next))
recv_requests_in_series s c socket rx_time k (r ∷ rs) own known ne bound next small room =
    let pending = s.fifo_sequencer.pending_client_requests in
    let step =
      recv_request-taken s c socket rx_time r k own.0 known ne bound next (omega (arith, room)) in
    let (s', run, all, last) =
      recv_requests_in_series (taken s c rx_time r) c socket rx_time (k + 1) rs own.1 known ne bound
        (omega (arith, next-taken s c rx_time r, next, small)) (omega (arith, small))
        (omega (arith, room, length-append pending (received_at rx_time r ∷ []))) in
    (
      s',
      ap (λ x. x >>= λ d. recv_requests d socket rx_time (numbered (k + 1) rs)) step ∙ run,
      all ∙ append_assoc pending (received_at rx_time r ∷ []) (map (received_at rx_time) rs),
      last ∙ omega arith,
    )

-- The fields of a request fit in theirs: 32 bits of a client, an instrument and a quantity, 64 of an id
-- and of a price.
pub record IsWide (r : MeClientRequest) : Type 0 where
  pub client_id : r.client_id < u32_mod
  pub ticker_id : r.ticker_id < u32_mod
  pub order_id : r.order_id < u64_mod
  pub price : abs r.price < 2 ^ 63
  pub qty : r.qty < u32_mod

module _ (seq_bytes : ℕ → List ℕ) (request_bytes : MeClientRequest → List ℕ)
    (responses : List ℕ → List OmClientResponse × List ℕ) where
  -- What the server reads in its buffer, the layout of a message in memory being the same on both sides: a
  -- number and a request whose fields fit are read back, in front of whatever follows.
  pub record Decodes (requests : List ℕ → List OmClientRequest × List ℕ) : Type 0 where
    pub nothing : requests [] ≡ ([], [])
    pub whole :
        (k : ℕ) (r : MeClientRequest) (rest : List ℕ)
        → k < u64_mod
        → IsWide r
        → requests (seq_bytes k ++ (request_bytes r ++ rest))
          ≡ (record { seq_num = k; me_client_request = r } ∷ (requests rest).0, (requests rest).1)

  decoded :
      {requests : List ℕ → List OmClientRequest × List ℕ} (d : Decodes requests) (k : ℕ)
      (rs : List MeClientRequest)
      → All IsWide rs
      → k + length rs < u64_mod
      → requests (bytes_of seq_bytes request_bytes responses k rs) ≡ (numbered k rs, [])
  decoded d k [] wide small = d.nothing
  decoded d k (r ∷ rs) wide small =
      d.whole k r (bytes_of seq_bytes request_bytes responses (k + 1) rs) (omega (arith, small))
        wide.0
      ∙ ap (λ x. (record { seq_num = k; me_client_request = r } ∷ x.0, x.1))
          (decoded d (k + 1) rs wide.1 (omega (arith, small)))

  -- The bytes of a socket's buffer, cut into whole messages and a rest.
  abbrev pub inbound : (List ℕ → List OmClientRequest × List ℕ) → List ℕ → Inbound
  inbound requests bytes = record { whole = (requests bytes).0; part = (requests bytes).1 }

  -- The gateway of a client puts bytes behind its stream. When the order server, which expects the gateway's
  -- next number over the client's socket, has just these bytes in its buffer, and reads messages back from
  -- the layout in which the gateway writes them, `recvCallback` uses all of them and hands to the sequencer
  -- the client's requests, each once and in their order. The server expects the gateway's next number again
  -- then. The requests are the client's, their fields fit, and they wait in a well-formed queue; the
  -- client's id is below ME_MAX_NUM_CLIENTS and its socket not null; the gateway's socket is open; there is
  -- room in its buffer and in the sequencer; and the numbers stay below 2^64.
  pub requests_arrive :
      (requests : List ℕ → List OmClientRequest × List ℕ) (g : OrderGateway) (s : OrderServer)
      (socket : Ptr) (rx_time : ℤ) (rs : List MeClientRequest)
      → Decodes requests
      → IsValid g.outgoing_requests
      → contents g.outgoing_requests ≡ rs
      → All (λ r. r.client_id ≡ g.client_id) rs
      → All IsWide rs
      → HasRoom g.tcp_socket
          (length (bytes_of seq_bytes request_bytes responses g.next_outgoing_seq_num rs))
      → g.next_outgoing_seq_num + length rs < u64_mod
      → g.client_id < me_max_num_clients
      → socket ≢ null
      → s.cid_tcp_socket g.client_id ≡ socket
      → s.cid_next_exp_seq_num g.client_id ≡ g.next_outgoing_seq_num
      → length s.fifo_sequencer.pending_client_requests + length rs ≤ me_max_pending_requests
      → (g' : OrderGateway) × (s' : OrderServer) × (bytes : List ℕ) × (send_requests seq_bytes
            request_bytes responses
            (length rs)
            g
          ≡ ok g')
        × (stream g'.tcp_socket ≡ stream g.tcp_socket ++ bytes)
        × (recv_callback s socket rx_time (inbound requests bytes)
            ≡ ok (s', record { whole = []; part = [] }))
        × (s'.fifo_sequencer.pending_client_requests
            ≡ s.fifo_sequencer.pending_client_requests ++ map (received_at rx_time) rs)
        × (s'.cid_next_exp_seq_num g.client_id ≡ g'.next_outgoing_seq_num)
  unfolding recv_callback
  requests_arrive requests g s socket rx_time rs d v e own wide h small known ne bound next room =
      let (g', sending, grown, up, drained, same) =
        send_requests-stream seq_bytes request_bytes responses g rs v e h small in
      let (s', run, all, last) =
        recv_requests_in_series s g.client_id socket rx_time g.next_outgoing_seq_num rs own known ne
          bound next small room in
      let bytes = bytes_of seq_bytes request_bytes responses g.next_outgoing_seq_num rs in
      let read = decoded d g.next_outgoing_seq_num rs wide small in
      (
        g',
        s',
        bytes,
        sending,
        grown,
        ap (λ x. recv_callback s socket rx_time (record { whole = x.0; part = x.1 })) read
            ∙ ap (λ x. x >>= λ t. ok (t, record { whole = []; part = [] })) run,
        all,
        last ∙ sym up,
      )
