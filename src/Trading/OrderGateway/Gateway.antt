-- ===== src/Trading/OrderGateway/Gateway.antt =====
-- trading/order_gw/order_gateway.h and order_gateway.cpp. How a number and a request lie in memory, and how
-- the bytes of the socket's buffer are cut into responses and a rest, are arguments.
use low_latency_trading_syst.Prelude.{
  ℕ, zero, suc, ◌+◌, ◌%◌, not, ◌==◌, if◌then◌else◌, List, [], ◌∷◌, Result, ok, out_of_fuel, ◌>>=◌,
  none, some,
}
use low_latency_trading_syst.Common.Types.{ClientId, u64_mod}
use low_latency_trading_syst.Common.LfQueue.Defs.{
  LfQueue, push, get_next_to_read, update_read_index,
}
use low_latency_trading_syst.Common.TcpSocket.Defs.{
  TcpSocket, send, SendAnswer, ReadAnswer, send_and_recv,
}
use low_latency_trading_syst.Exchange.Messages.{MeClientRequest, MeClientResponse, OmClientResponse}

pub record OrderGateway : Type 0 where
  pub client_id : ClientId
  pub outgoing_requests : LfQueue MeClientRequest
  pub incoming_responses : LfQueue MeClientResponse
  pub next_outgoing_seq_num : ℕ
  pub next_exp_seq_num : ℕ
  pub tcp_socket : TcpSocket

-- The constructor, with a socket that is connected.
unfoldable pub init :
    ClientId → LfQueue MeClientRequest → LfQueue MeClientResponse → TcpSocket → OrderGateway
init client_id client_requests client_responses tcp_socket = record {
  client_id = client_id;
  outgoing_requests = client_requests;
  incoming_responses = client_responses;
  next_outgoing_seq_num = 1;
  next_exp_seq_num = 1;
  tcp_socket = tcp_socket;
}

-- A round of the loop of `recvCallback`.
unfoldable pub recv_response : OrderGateway → OmClientResponse → OrderGateway
recv_response g r =
    if not (r.me_client_response.client_id == g.client_id)
    then g
    else if not (r.seq_num == g.next_exp_seq_num)
    then g
    else record g {
      next_exp_seq_num = (g.next_exp_seq_num + 1) % u64_mod;
      incoming_responses = push g.incoming_responses r.me_client_response;
    }

unfoldable pub recv_responses : OrderGateway → List OmClientResponse → OrderGateway
recv_responses g [] = g
recv_responses g (r ∷ rs) = recv_responses (recv_response g r) rs

module _ (seq_bytes : ℕ → List ℕ) (request_bytes : MeClientRequest → List ℕ)
    (responses : List ℕ → List OmClientResponse × List ℕ) where
  -- A round of the inner loop of `run`: the number and the request go into the buffer.
  unfoldable pub send_request : OrderGateway → MeClientRequest → Result OrderGateway
  send_request g r = do
    s ← send g.tcp_socket (seq_bytes g.next_outgoing_seq_num)
    s' ← send s (request_bytes r)
    q ← update_read_index g.outgoing_requests
    ok (record g {
      tcp_socket = s';
      outgoing_requests = q;
      next_outgoing_seq_num = (g.next_outgoing_seq_num + 1) % u64_mod;
    })

  -- That loop, with no writer between: a round for each element of the queue.
  unfoldable pub send_requests : ℕ → OrderGateway → Result OrderGateway
  send_requests zero g = elim (get_next_to_read g.outgoing_requests) [
    | none ↦ ok g
    | some r ↦ out_of_fuel
  ]
  send_requests (suc n) g = elim (get_next_to_read g.outgoing_requests) [
    | none ↦ ok g
    | some r ↦ (do g' ← send_request g r; send_requests n g')
  ]

  -- `recvCallback`: the buffer keeps the bytes behind the last whole response.
  unfoldable pub recv_callback : OrderGateway → List ℕ → Result (OrderGateway × List ℕ)
  recv_callback g bytes = let (whole, part) = responses bytes in ok (recv_responses g whole, part)

  -- A round of `run`, with the kernel's answers.
  unfoldable pub run_round : List ReadAnswer → List SendAnswer → OrderGateway → Result OrderGateway
  run_round reads sends g = do
    (g', s) ← send_and_recv recv_callback reads sends g g.tcp_socket
    send_requests g'.outgoing_requests.num_elements (record g' { tcp_socket = s })
