-- ===== src/Trading/OrderGateway/Requests.antt =====
-- The requests that `run` of trading/order_gw/order_gateway.cpp puts into its socket.
use low_latency_trading_syst.Prelude.{
  ℕ, suc, ◌+◌, ◌%◌, ◌<◌, ◌≡◌, refl, sym, ap, ◌∙◌, subst, arith, List, [], ◌∷◌, ◌++◌, length,
  length-append, append-nil, append_assoc, ok, none, some,
}
use low_latency_trading_syst.Common.Types.{u64_mod}
use low_latency_trading_syst.Common.LfQueue.Defs.{LfQueue, get_next_to_read, update_read_index}
use low_latency_trading_syst.Common.LfQueue.Fifo.{
  contents, IsValid, read_oldest, read_empty, advance,
}
use low_latency_trading_syst.Common.TcpSocket.Defs.{TcpSocket, send}
use low_latency_trading_syst.Common.TcpSocket.Sending.{stream}
use low_latency_trading_syst.Common.TcpSocket.Room.{HasRoom, send-HasRoom}
use low_latency_trading_syst.Exchange.Messages.{MeClientRequest, OmClientResponse}
use low_latency_trading_syst.Trading.OrderGateway.Gateway.{
  OrderGateway, send_request, send_requests,
}

module _ (seq_bytes : ℕ → List ℕ) (request_bytes : MeClientRequest → List ℕ)
    (responses : List ℕ → List OmClientResponse × List ℕ) where
  -- The bytes of the requests, each behind its number, numbered from `k` on.
  abbrev pub bytes_of : ℕ → List MeClientRequest → List ℕ
  bytes_of k [] = []
  bytes_of k (r ∷ rs) = seq_bytes k ++ (request_bytes r ++ bytes_of (k + 1) rs)

  send_requests-end :
      (g : OrderGateway)
      → get_next_to_read g.outgoing_requests ≡ none
      → send_requests seq_bytes request_bytes responses 0 g ≡ ok g
  unfolding send_requests
  send_requests-end g e = rw (send_requests, e) refl

  send_requests-next :
      (n : ℕ) (g g1 : OrderGateway) (r : MeClientRequest)
      → get_next_to_read g.outgoing_requests ≡ some r
      → send_request seq_bytes request_bytes responses g r ≡ ok g1
      → send_requests seq_bytes request_bytes responses (suc n) g
        ≡ send_requests seq_bytes request_bytes responses n g1
  unfolding send_requests
  send_requests-next n g g1 r e step = rw (send_requests, e, step) refl

  send_request_lem :
      (g : OrderGateway) (r : MeClientRequest) (s s' : TcpSocket) (q : LfQueue MeClientRequest)
      → send g.tcp_socket (seq_bytes g.next_outgoing_seq_num) ≡ ok s
      → send s (request_bytes r) ≡ ok s'
      → update_read_index g.outgoing_requests ≡ ok q
      → send_request seq_bytes request_bytes responses g r
        ≡ ok (record g {
          tcp_socket = s';
          outgoing_requests = q;
          next_outgoing_seq_num = (g.next_outgoing_seq_num + 1) % u64_mod;
        })
  unfolding send_request
  send_request_lem g r s s' q e f h = rw e (rw f (rw h refl))

  -- With an open socket that has room for their bytes, the loop of `run` returns, takes all requests off
  -- a well-formed queue, and puts them into the socket's stream, oldest first, each behind its number;
  -- the numbers follow each other from the next one on. The responses are not touched.
  pub send_requests-stream :
      (g : OrderGateway) (rs : List MeClientRequest)
      → IsValid g.outgoing_requests
      → contents g.outgoing_requests ≡ rs
      → HasRoom g.tcp_socket (length (bytes_of g.next_outgoing_seq_num rs))
      → g.next_outgoing_seq_num + length rs < u64_mod
      → (g' : OrderGateway) × (send_requests seq_bytes request_bytes responses (length rs) g
          ≡ ok g')
        × (stream g'.tcp_socket ≡ stream g.tcp_socket ++ bytes_of g.next_outgoing_seq_num rs)
        × (g'.next_outgoing_seq_num ≡ g.next_outgoing_seq_num + length rs)
        × (contents g'.outgoing_requests ≡ [])
        × (g'.incoming_responses ≡ g.incoming_responses)
  send_requests-stream g [] v e h bound = (
    g,
    send_requests-end g (read_empty g.outgoing_requests v e).0,
    sym (append-nil (stream g.tcp_socket)),
    omega arith,
    e,
    refl,
  )
  send_requests-stream g (r ∷ rs) v e h bound =
      let (oldest, taken, left, v1) = read_oldest g.outgoing_requests v r rs e in
      let k = g.next_outgoing_seq_num in
      let up : (k + 1) % u64_mod ≡ k + 1 = omega (arith, bound) in
      let rest = request_bytes r ++ bytes_of (k + 1) rs in
      let (s, first, grown, h1) = send-HasRoom g.tcp_socket (seq_bytes k) (length rest) (record {
        opened = h.opened;
        valid = h.valid;
        room = omega (arith, h.room, length-append (seq_bytes k) rest);
      }) in
      let (s', second, grown', h2) =
        send-HasRoom s (request_bytes r) (length (bytes_of (k + 1) rs)) (record {
          opened = h1.opened;
          valid = h1.valid;
          room = omega (arith, h1.room, length-append (request_bytes r) (bytes_of (k + 1) rs));
        }) in
      let g1 : OrderGateway = record g {
        tcp_socket = s';
        outgoing_requests = advance g.outgoing_requests v;
        next_outgoing_seq_num = (k + 1) % u64_mod;
      } in
      let (g', run, all, next, drained, same) =
        send_requests-stream g1 rs v1 left
          (subst (λ i. HasRoom s' (length (bytes_of i rs))) (sym up) h2)
          (omega (arith, bound, up)) in
      (
        g',
        send_requests-next (length rs) g g1 r oldest
              (send_request_lem g r s s' (advance g.outgoing_requests v) first second taken)
            ∙ run,
        all
            ∙ ap (λ i. stream s' ++ bytes_of i rs) up
            ∙ ap (λ l. l ++ bytes_of (k + 1) rs) (grown' ∙ ap (λ l. l ++ request_bytes r) grown)
            ∙ append_assoc (stream g.tcp_socket ++ seq_bytes k) (request_bytes r)
                (bytes_of (k + 1) rs)
            ∙ append_assoc (stream g.tcp_socket) (seq_bytes k) rest,
        next ∙ omega (arith, up),
        drained,
        same,
      )
