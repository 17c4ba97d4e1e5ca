-- ===== src/Exchange/OrderServer/Server.antt =====
-- exchange/order_server/order_server.h. A socket is its address. The messages of a socket's buffer
-- that have arrived whole are a list, with the bytes of a last one that has not. The arrays are read
-- at the client's id without a test in the source, where an id that is too large is undefined; the model
-- stops there with `fatal`, so that no theorem speaks of what follows. How a number and a response lie in
-- memory are arguments.
use low_latency_trading_syst.Prelude.{
  ℕ, zero, suc, ◌+◌, ◌%◌, not, ◌==◌, ltb, update, if◌then◌else◌, ℤ, List, [], ◌∷◌, Result, ok,
  fatal, out_of_fuel, ◌>>=◌, ◌>>◌, assert, none, some,
}
use low_latency_trading_syst.Common.Types.{ClientId, u64_mod, me_max_num_clients}
use low_latency_trading_syst.Common.MemPool.Defs.{Ptr, null}
use low_latency_trading_syst.Common.LfQueue.Defs.{LfQueue, get_next_to_read, update_read_index}
use low_latency_trading_syst.Common.TcpSocket.Defs.{TcpSocket, send}
use low_latency_trading_syst.Exchange.Messages.{MeClientRequest, OmClientRequest, MeClientResponse}
use low_latency_trading_syst.Exchange.OrderServer.Sequencer.{FifoSequencer, add_client_request}

pub record OrderServer : Type 0 where
  pub outgoing_responses : LfQueue MeClientResponse
  pub cid_next_outgoing_seq_num : ClientId → ℕ
  pub cid_next_exp_seq_num : ClientId → ℕ
  pub cid_tcp_socket : ClientId → Ptr
  pub fifo_sequencer : FifoSequencer
  pub sockets : Ptr → TcpSocket

-- The constructor, with the sockets of the connections.
unfoldable pub init :
    LfQueue MeClientRequest → LfQueue MeClientResponse → (Ptr → TcpSocket) → OrderServer
init client_requests client_responses sockets = record {
  outgoing_responses = client_responses;
  cid_next_outgoing_seq_num = λ _. 1;
  cid_next_exp_seq_num = λ _. 1;
  cid_tcp_socket = λ _. null;
  fifo_sequencer = record { incoming_requests = client_requests; pending_client_requests = [] };
  sockets = sockets;
}

-- The first message of a client binds its socket.
unfoldable pub bind_socket : OrderServer → Ptr → ClientId → OrderServer
bind_socket s socket c =
    if s.cid_tcp_socket c == null
    then record s { cid_tcp_socket = update s.cid_tcp_socket c socket }
    else s

-- A round of the loop of `recvCallback`.
unfoldable pub recv_request : OrderServer → Ptr → ℤ → OmClientRequest → Result OrderServer
unfolding bind_socket
recv_request s0 socket rx_time r =
    let c = r.me_client_request.client_id in
    let s = bind_socket s0 socket c in
    if not (ltb c me_max_num_clients)
    then fatal
    else if not (s.cid_tcp_socket c == socket)
    then ok s
    else if not (r.seq_num == s.cid_next_exp_seq_num c)
    then ok s
    else do
      sequencer ← add_client_request s.fifo_sequencer rx_time r.me_client_request
      ok (record s {
        cid_next_exp_seq_num =
            update s.cid_next_exp_seq_num c ((s.cid_next_exp_seq_num c + 1) % u64_mod);
        fifo_sequencer = sequencer;
      })

unfoldable pub recv_requests : OrderServer → Ptr → ℤ → List OmClientRequest → Result OrderServer
recv_requests s socket rx_time [] = ok s
recv_requests s socket rx_time (r ∷ rs) = do
  s' ← recv_request s socket rx_time r
  recv_requests s' socket rx_time rs

-- The part of a socket's buffer below `next_rcv_valid_index_`.
pub record Inbound : Type 0 where
  pub whole : List OmClientRequest
  pub part : List ℕ

-- `recvCallback`: the buffer keeps the bytes behind the last whole message.
unfoldable pub recv_callback : OrderServer → Ptr → ℤ → Inbound → Result (OrderServer × Inbound)
recv_callback s socket rx_time inbound = do
  s' ← recv_requests s socket rx_time inbound.whole
  ok (s', record inbound { whole = [] })

module _ (seq_bytes : ℕ → List ℕ) (response_bytes : MeClientResponse → List ℕ) where
  -- A round of the loop of `run` over the responses: the number and the response go into
  -- the buffer of the client's socket.
  unfoldable pub send_response : OrderServer → MeClientResponse → Result OrderServer
  send_response s r = do
    let c = r.client_id
    assert (ltb c me_max_num_clients)
    let p = s.cid_tcp_socket c
    assert (not (p == null))
    let seq_num = s.cid_next_outgoing_seq_num c
    socket ← send (s.sockets p) (seq_bytes seq_num)
    socket' ← send socket (response_bytes r)
    outgoing ← update_read_index s.outgoing_responses
    ok (record s {
      sockets = update s.sockets p socket';
      outgoing_responses = outgoing;
      cid_next_outgoing_seq_num = update s.cid_next_outgoing_seq_num c ((seq_num + 1) % u64_mod);
    })

  -- That loop. With no writer between, it has a round for each element of the queue.
  unfoldable pub send_responses : ℕ → OrderServer → Result OrderServer
  send_responses zero s = elim (get_next_to_read s.outgoing_responses) [
    | none ↦ ok s
    | some r ↦ out_of_fuel
  ]
  send_responses (suc fuel) s = elim (get_next_to_read s.outgoing_responses) [
    | none ↦ ok s
    | some r ↦ (do s' ← send_response s r; send_responses fuel s')
  ]
