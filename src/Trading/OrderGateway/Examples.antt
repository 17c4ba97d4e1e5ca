-- ===== src/Trading/OrderGateway/Examples.antt =====
-- Examples of the theorems on trading/order_gw, with one element of the stream for a number and for each
-- field of a request that is sent.
use low_latency_trading_syst.Prelude.{
  ◌==◌, if◌then◌else◌, ℕ, ◌≡◌, refl, false, List, [], ◌∷◌, map, ok, arith, ℤ, pos, negsuc,
}
use low_latency_trading_syst.Common.Types.{Side}
use low_latency_trading_syst.Common.LfQueue.Fifo.{contents, items}
use low_latency_trading_syst.Common.LfQueue.Bulk.{Gained}
use low_latency_trading_syst.Common.TcpSocket.Sending.{stream}
use low_latency_trading_syst.Exchange.Messages.{
  ClientRequestType, MeClientRequest, OmClientRequest, OmClientResponse, default_response,
}
use low_latency_trading_syst.Exchange.MarketData.Examples.{empty_queue}
use low_latency_trading_syst.Exchange.OrderServer.Server.{OrderServer, recv_callback}
use low_latency_trading_syst.Trading.OrderGateway.EndToEnd.{
  received_at, IsWide, Decodes, inbound, requests_arrive,
}
use low_latency_trading_syst.Trading.OrderGateway.Gateway.{
  OrderGateway, send_requests, recv_responses,
}
use low_latency_trading_syst.Trading.OrderGateway.Requests.{send_requests-stream}
use low_latency_trading_syst.Trading.OrderGateway.Responses.{
  Forwarded, recv_responses-Forwarded, recv_responses-all,
}

abbrev seq_bytes : ℕ → List ℕ
seq_bytes n = n ∷ []

abbrev request_bytes : MeClientRequest → List ℕ
request_bytes r = r.order_id ∷ r.qty ∷ []

abbrev nothing_whole : List ℕ → List OmClientResponse × List ℕ
nothing_whole bytes = ([], bytes)

abbrev request : MeClientRequest
request = record {
  type = ClientRequestType.new;
  client_id = 3;
  ticker_id = 0;
  order_id = 1;
  side = Side.buy;
  price = pos 100;
  qty = 5;
}

-- One request waits, and the socket is open and empty.
abbrev gateway : OrderGateway
gateway = record {
  client_id = 3;
  outgoing_requests = record {
    store = λ _. request;
    capacity = 8;
    next_write_index = 1;
    next_read_index = 0;
    num_elements = 1;
  };
  incoming_responses = empty_queue default_response;
  next_outgoing_seq_num = 1;
  next_exp_seq_num = 1;
  tcp_socket = record {
    closed = false;
    outbound = [];
    next_send_index = 0;
    inbound = [];
    wire = [];
  };
}

send_requests-stream_example :
    (g' : OrderGateway) × (send_requests seq_bytes request_bytes nothing_whole 1 gateway ≡ ok g')
    × (stream g'.tcp_socket ≡ 1 ∷ 1 ∷ 5 ∷ [])
    × (g'.next_outgoing_seq_num ≡ 2)
    × (contents g'.outgoing_requests ≡ [])
    × (g'.incoming_responses ≡ gateway.incoming_responses)
unfolding contents items
send_requests-stream_example =
    send_requests-stream seq_bytes request_bytes nothing_whole gateway (request ∷ []) (ground arith)
      refl (record { opened = refl; valid = omega arith; room = omega arith }) (omega arith)

abbrev response : ℕ → OmClientResponse
response n = record { seq_num = n; me_client_response = record default_response { client_id = 3 } }

-- The second is a repetition.
recv_responses-Forwarded_example :
    Forwarded gateway
      (recv_responses gateway (response 1 ∷ response 1 ∷ response 2 ∷ []))
      (response 1 ∷ response 1 ∷ response 2 ∷ [])
recv_responses-Forwarded_example =
    recv_responses-Forwarded gateway (response 1 ∷ response 1 ∷ response 2 ∷ []) (ground arith)
      (omega arith)

recv_responses-all_example :
    Gained gateway.incoming_responses
      (recv_responses gateway (response 1 ∷ response 2 ∷ [])).incoming_responses
      (map (λ r. r.me_client_response) (response 1 ∷ response 2 ∷ []))
    × ((recv_responses gateway (response 1 ∷ response 2 ∷ [])).next_exp_seq_num ≡ 3)
recv_responses-all_example =
    recv_responses-all gateway (response 1 ∷ response 2 ∷ []) 3 (ground arith) (omega arith)
      (refl, refl, (refl, refl, refl))

-- The server has bound the client's socket, 5.
abbrev server : OrderServer
server = record {
  outgoing_responses = empty_queue default_response;
  cid_next_outgoing_seq_num = λ _. 1;
  cid_next_exp_seq_num = λ _. 1;
  cid_tcp_socket = λ c. if c == 3 then 5 else 0;
  fifo_sequencer = record { incoming_requests = empty_queue request; pending_client_requests = [] };
  sockets = λ _. gateway.tcp_socket;
}

-- A layout of every field of a request.
abbrev type_code : ClientRequestType → ℕ
type_code ClientRequestType.invalid = 0
type_code ClientRequestType.new = 1
type_code ClientRequestType.cancel = 2

abbrev side_code : Side → ℕ
side_code Side.invalid = 0
side_code Side.buy = 1
side_code Side.sell = 2
side_code Side.max = 3

abbrev sign_code : ℤ → ℕ
sign_code (pos n) = 0
sign_code (negsuc n) = 1

abbrev size_code : ℤ → ℕ
size_code (pos n) = n
size_code (negsuc n) = n

abbrev fields : MeClientRequest → List ℕ
fields r =
    type_code r.type
    ∷ r.client_id
    ∷ r.ticker_id
    ∷ r.order_id
    ∷ side_code r.side
    ∷ sign_code r.price
    ∷ size_code r.price
    ∷ r.qty
    ∷ []

-- And how it is read.
abbrev type_of : ℕ → ClientRequestType
type_of n =
    if n == 0
    then ClientRequestType.invalid
    else if n == 1
    then ClientRequestType.new
    else ClientRequestType.cancel

abbrev side_of : ℕ → Side
side_of n =
    if n == 0
    then Side.invalid
    else if n == 1
    then Side.buy
    else if n == 2
    then Side.sell
    else Side.max

abbrev price_of : ℕ → ℕ → ℤ
price_of sign size = if sign == 0 then pos size else negsuc size

unfoldable requests : List ℕ → List OmClientRequest × List ℕ
requests (k ∷ t ∷ c ∷ i ∷ o ∷ d ∷ g ∷ p ∷ q ∷ rest) = (
  record {
    seq_num = k;
    me_client_request = record {
      type = type_of t;
      client_id = c;
      ticker_id = i;
      order_id = o;
      side = side_of d;
      price = price_of g p;
      qty = q;
    };
  }
      ∷ (requests rest).0,
  (requests rest).1,
)
requests bytes = ([], bytes)

type_of-type_code : (t : ClientRequestType) → type_of (type_code t) ≡ t
type_of-type_code ClientRequestType.invalid = refl
type_of-type_code ClientRequestType.new = refl
type_of-type_code ClientRequestType.cancel = refl

side_of-side_code : (d : Side) → side_of (side_code d) ≡ d
side_of-side_code Side.invalid = refl
side_of-side_code Side.buy = refl
side_of-side_code Side.sell = refl
side_of-side_code Side.max = refl

price_of-codes : (p : ℤ) → price_of (sign_code p) (size_code p) ≡ p
price_of-codes (pos n) = refl
price_of-codes (negsuc n) = refl

request-IsWide : IsWide request
request-IsWide = record {
  client_id = omega arith;
  ticker_id = omega arith;
  order_id = omega arith;
  price = omega arith;
  qty = omega arith;
}

requests-Decodes : Decodes seq_bytes fields nothing_whole requests
unfolding requests
requests-Decodes = record {
  nothing = refl;
  whole = λ k r rest small wide.
      rw (type_of-type_code r.type, side_of-side_code r.side, price_of-codes r.price) refl;
}

requests_arrive_example :
    (g' : OrderGateway) × (s' : OrderServer) × (bytes : List ℕ) × (send_requests seq_bytes fields
        nothing_whole 1 gateway
      ≡ ok g')
    × (stream g'.tcp_socket ≡ bytes)
    × (recv_callback server 5 (pos 9) (inbound seq_bytes fields nothing_whole requests bytes)
        ≡ ok (s', record { whole = []; part = [] }))
    × (s'.fifo_sequencer.pending_client_requests ≡ received_at (pos 9) request ∷ [])
    × (s'.cid_next_exp_seq_num 3 ≡ g'.next_outgoing_seq_num)
unfolding contents items
requests_arrive_example =
    requests_arrive seq_bytes fields nothing_whole requests gateway server 5 (pos 9) (request ∷ [])
      requests-Decodes (ground arith) refl (refl, tt) (request-IsWide, tt)
      (record { opened = refl; valid = omega arith; room = omega arith }) (omega arith)
      (omega arith) (omega arith) refl refl (omega arith)
