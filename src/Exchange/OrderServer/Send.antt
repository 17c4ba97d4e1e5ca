-- ===== src/Exchange/OrderServer/Send.antt =====
-- The responses that `run` of exchange/order_server/order_server.h sends.
use low_latency_trading_syst.Prelude.{
  ℕ, suc, ◌+◌, ◌%◌, ◌≡◌, ◌≢◌, refl, sym, ◌∙◌, update, arith, List, [], ◌∷◌, ◌++◌, length,
  length-append, subst, ap, ◌<◌, ◌==◌, false, true, if◌then◌else◌, Bool-cases, inl, inr,
  append_assoc, All, Result, ok, none, some,
}
use low_latency_trading_syst.Common.Types.{ClientId, u64_mod, me_max_num_clients}
use low_latency_trading_syst.Common.MemPool.Defs.{Ptr, null}
use low_latency_trading_syst.Common.LfQueue.Defs.{LfQueue, get_next_to_read, update_read_index}
use low_latency_trading_syst.Common.LfQueue.Fifo.{
  contents, IsValid, read_oldest, read_empty, advance,
}
use low_latency_trading_syst.Common.TcpSocket.Defs.{TcpSocket, send}
use low_latency_trading_syst.Common.TcpSocket.Room.{
  Ready, Grown, Grown-none, Grown-then, send-Ready,
}
use low_latency_trading_syst.Exchange.Messages.{MeClientResponse}
use low_latency_trading_syst.Exchange.OrderServer.Server.{
  OrderServer, send_response, send_responses,
}

-- The number of a client's next response when one has been sent.
abbrev pub next_number : (ClientId → ℕ) → ClientId → ClientId → ℕ
next_number seq c = update seq c ((seq c + 1) % u64_mod)

put_same : (f : Ptr → TcpSocket) (p : Ptr) (x : TcpSocket) → update f p x p ≡ x
unfolding update
put_same f p x = ground arith

put_other :
    (f : Ptr → TcpSocket) (p o : Ptr) (x : TcpSocket) → (p == o) ≡ false → update f p x o ≡ f o
unfolding update
put_other f p o x other = ground (arith, other)

-- The responses can be sent: their clients are in the range of the arrays and have a socket.
abbrev pub HasSocket : OrderServer → MeClientResponse → Type 0
HasSocket s r = (r.client_id < me_max_num_clients) × (s.cid_tcp_socket r.client_id ≢ null)

module _ (seq_bytes : ℕ → List ℕ) (response_bytes : MeClientResponse → List ℕ) where
  -- The bytes that go to a socket: each response of its clients behind the number that it has in its
  -- client's own series.
  unfoldable pub bytes_to : (ClientId → Ptr) → (ClientId → ℕ) → List MeClientResponse → Ptr → List ℕ
  bytes_to socket seq [] p = []
  bytes_to socket seq (r ∷ rs) p =
      let rest = bytes_to socket (next_number seq r.client_id) rs p in
      if socket r.client_id == p
      then seq_bytes (seq r.client_id) ++ (response_bytes r ++ rest)
      else rest

  pub record Sent (s : OrderServer) (rs : List MeClientResponse) (run : Result OrderServer)
      : Type 0 where
    pub server : OrderServer
    pub returns : run ≡ ok server
    pub written :
        (p : Ptr)
        → Grown
            (s.sockets p)
            (server.sockets p)
            (bytes_to s.cid_tcp_socket s.cid_next_outgoing_seq_num rs p)
    pub clients : server.cid_tcp_socket ≡ s.cid_tcp_socket
    pub drained : contents server.outgoing_responses ≡ []
    pub valid : IsValid server.outgoing_responses

  send_responses-end :
      (s : OrderServer)
      → get_next_to_read s.outgoing_responses ≡ none
      → send_responses seq_bytes response_bytes 0 s ≡ ok s
  unfolding send_responses
  send_responses-end s e = rw (send_responses, e) refl

  send_responses-next :
      (n : ℕ) (s t : OrderServer) (r : MeClientResponse)
      → get_next_to_read s.outgoing_responses ≡ some r
      → send_response seq_bytes response_bytes s r ≡ ok t
      → send_responses seq_bytes response_bytes (suc n) s
        ≡ send_responses seq_bytes response_bytes n t
  unfolding send_responses
  send_responses-next n s t r e step = rw (send_responses, e, step) refl

  -- The server when a response has gone to a socket.
  abbrev after : OrderServer → MeClientResponse → TcpSocket → LfQueue MeClientResponse → OrderServer
  after s r x q = record s {
    sockets = update s.sockets (s.cid_tcp_socket r.client_id) x;
    outgoing_responses = q;
    cid_next_outgoing_seq_num = next_number s.cid_next_outgoing_seq_num r.client_id;
  }

  send_response_lem :
      (s : OrderServer) (r : MeClientResponse) (x y : TcpSocket) (q : LfQueue MeClientResponse)
      → HasSocket s r
      → send
          (s.sockets (s.cid_tcp_socket r.client_id))
          (seq_bytes (s.cid_next_outgoing_seq_num r.client_id))
        ≡ ok x
      → send x (response_bytes r) ≡ ok y
      → update_read_index s.outgoing_responses ≡ ok q
      → send_response seq_bytes response_bytes s r ≡ ok (after s r y q)
  unfolding send_response
  send_response_lem s r x y q h e f g = ground (arith, h, e, f, g)

  -- Whether a response goes to the socket `p` or to another, what is left for `p`.
  bytes_to-own :
      (socket : ClientId → Ptr) (seq : ClientId → ℕ) (r : MeClientResponse)
      (rs : List MeClientResponse) (p : Ptr)
      → (socket r.client_id == p) ≡ true
      → bytes_to socket seq (r ∷ rs) p
        ≡ seq_bytes (seq r.client_id)
          ++ (response_bytes r ++ bytes_to socket (next_number seq r.client_id) rs p)
  unfolding bytes_to
  bytes_to-own socket seq r rs p own = rw (bytes_to, own) refl

  bytes_to-other :
      (socket : ClientId → Ptr) (seq : ClientId → ℕ) (r : MeClientResponse)
      (rs : List MeClientResponse) (p : Ptr)
      → (socket r.client_id == p) ≡ false
      → bytes_to socket seq (r ∷ rs) p ≡ bytes_to socket (next_number seq r.client_id) rs p
  unfolding bytes_to
  bytes_to-other socket seq r rs p other = rw (bytes_to, other) refl

  -- Every socket that a client is bound to is closed, or has room for its responses.
  abbrev pub AllReady : OrderServer → List MeClientResponse → Type 0
  AllReady s rs =
      (c : ClientId)
      → s.cid_tcp_socket c ≢ null
      → Ready (s.sockets (s.cid_tcp_socket c))
          (length (bytes_to s.cid_tcp_socket s.cid_next_outgoing_seq_num rs (s.cid_tcp_socket c)))

  -- One response goes out, and the sockets are ready for the others.
  step :
      (s : OrderServer) (r : MeClientResponse) (rs : List MeClientResponse)
      (q : LfQueue MeClientResponse)
      → HasSocket s r
      → AllReady s (r ∷ rs)
      → update_read_index s.outgoing_responses ≡ ok q
      → (y : TcpSocket) × (send_response seq_bytes response_bytes s r ≡ ok (after s r y q))
        × Grown
            (s.sockets (s.cid_tcp_socket r.client_id))
            y
            (seq_bytes (s.cid_next_outgoing_seq_num r.client_id) ++ response_bytes r)
        × AllReady (after s r y q) rs
  step s r rs q h ready e =
      let c = r.client_id in
      let p = s.cid_tcp_socket c in
      let number = seq_bytes (s.cid_next_outgoing_seq_num c) in
      let seq' = next_number s.cid_next_outgoing_seq_num c in
      let left = bytes_to s.cid_tcp_socket seq' rs p in
      let whole : length (bytes_to s.cid_tcp_socket s.cid_next_outgoing_seq_num (r ∷ rs) p)
          ≡ length number + (length (response_bytes r) + length left) =
        ap length (bytes_to-own s.cid_tcp_socket s.cid_next_outgoing_seq_num r rs p (ground arith))
        ∙ length-append number (response_bytes r ++ left)
        ∙ ap (λ n. length number + n) (length-append (response_bytes r) left) in
      let (x, first, grown, ready_x) =
        send-Ready (s.sockets p) number (length (response_bytes r) + length left)
          (subst (λ n. Ready (s.sockets p) n) whole (ready c h.1)) in
      let (y, second, grown', ready_y) = send-Ready x (response_bytes r) (length left) ready_x in
      (
        y,
        send_response_lem s r x y q h first second e,
        Grown-then grown grown',
        λ d bound. elim (Bool-cases (p == s.cid_tcp_socket d)) [
          | inl own ↦
              let same : p ≡ s.cid_tcp_socket d = ground (arith, own) in
              subst
                (λ o. Ready (update s.sockets p y o) (length (bytes_to s.cid_tcp_socket seq' rs o)))
                same (subst (λ z. Ready z (length left)) (sym (put_same s.sockets p y)) ready_y)
          | inr other ↦
              let o = s.cid_tcp_socket d in
              let rest = bytes_to s.cid_tcp_socket seq' rs o in
              subst (λ z. Ready z (length rest)) (sym (put_other s.sockets p o y other))
                (subst (λ l. Ready (s.sockets o) (length l))
                  (bytes_to-other s.cid_tcp_socket s.cid_next_outgoing_seq_num r rs o other)
                  (ready d bound))
        ],
      )

  -- What a socket is given by a response and by those behind it.
  written_next :
      (s : OrderServer) (r : MeClientResponse) (rs : List MeClientResponse) (p : Ptr)
      (y : TcpSocket) (t : OrderServer)
      → let own = s.cid_tcp_socket r.client_id in
        let seq = s.cid_next_outgoing_seq_num in
        Grown (s.sockets own) y (seq_bytes (seq r.client_id) ++ response_bytes r)
        → Grown
            (update s.sockets own y p)
            (t.sockets p)
            (bytes_to s.cid_tcp_socket (next_number seq r.client_id) rs p)
        → Grown (s.sockets p) (t.sockets p) (bytes_to s.cid_tcp_socket seq (r ∷ rs) p)
  written_next s r rs p y t first later =
      let o = s.cid_tcp_socket r.client_id in
      let seq = s.cid_next_outgoing_seq_num in
      let rest = bytes_to s.cid_tcp_socket (next_number seq r.client_id) rs in
      elim (Bool-cases (o == p)) [
        | inl own ↦
            let same : o ≡ p = ground (arith, own) in
            let number = seq_bytes (seq r.client_id) in
            subst (λ l. Grown (s.sockets p) (t.sockets p) l)
              (append_assoc number (response_bytes r) (rest p)
                ∙ sym (bytes_to-own s.cid_tcp_socket seq r rs p own))
              (Grown-then
                (subst (λ z. Grown (s.sockets z) y (number ++ response_bytes r)) same first)
                (subst (λ z. Grown z (t.sockets p) (rest p))
                  (ap (λ z. update s.sockets z y p) same ∙ put_same s.sockets p y) later))
        | inr other ↦
            subst (λ l. Grown (s.sockets p) (t.sockets p) l)
              (sym (bytes_to-other s.cid_tcp_socket seq r rs p other))
              (subst (λ z. Grown z (t.sockets p) (rest p)) (put_other s.sockets o p y other) later)
      ]

  -- From a well-formed queue whose responses are for clients below ME_MAX_NUM_CLIENTS that have a socket,
  -- when every socket that a client is bound to is closed or has room for its responses, the loop of `run`
  -- returns and leaves the queue empty. Each open socket has been given the responses of its clients, oldest
  -- first, each behind the next number of its client; a closed one is as it was; no client is bound anew.
  pub send_responses_lem :
      (s : OrderServer) (rs : List MeClientResponse)
      → IsValid s.outgoing_responses
      → contents s.outgoing_responses ≡ rs
      → All (HasSocket s) rs
      → AllReady s rs
      → Sent s rs (send_responses seq_bytes response_bytes (length rs) s)
  unfolding bytes_to
  send_responses_lem s [] v e h ready = record {
    server = s;
    returns = send_responses-end s (read_empty s.outgoing_responses v e).0;
    written = λ p. Grown-none (s.sockets p);
    clients = refl;
    drained = e;
    valid = v;
  }
  send_responses_lem s (r ∷ rs) v e h ready =
      let (next, update_ok, left, w) = read_oldest s.outgoing_responses v r rs e in
      let q = advance s.outgoing_responses v in
      let (y, sending, grown, ready_y) = step s r rs q h.0 ready update_ok in
      let rest = send_responses_lem (after s r y q) rs w left h.1 ready_y in
      record {
        server = rest.server;
        returns = send_responses-next (length rs) s (after s r y q) r next sending ∙ rest.returns;
        written = λ p. written_next s r rs p y rest.server grown (rest.written p);
        clients = rest.clients;
        drained = rest.drained;
        valid = rest.valid;
      }
