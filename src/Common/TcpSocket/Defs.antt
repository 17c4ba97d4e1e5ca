-- ===== src/Common/TcpSocket/Defs.antt =====
-- common/tcp_socket.h and tcp_socket.cpp. Of each buffer the model holds the bytes below its valid index;
-- `wire` is what the kernel has taken. What the kernel answers to each call is an argument, a list of
-- answers in their order. A socket has a descriptor until it is closed.
use low_latency_trading_syst.Prelude.{
  ℕ, zero, suc, ◌+◌, Bool, true, false, not, ◌&&◌, ◌||◌, ◌==◌, ltb, leb, if◌then◌else◌, List, [],
  ◌∷◌, ◌++◌, length, Result, ok, out_of_fuel, ◌>>=◌, ◌>>◌, assert,
}

-- The first `n` of a list, and those behind them.
abbrev pub take : ℕ → List ℕ → List ℕ
take zero l = []
take (suc n) [] = []
take (suc n) (a ∷ l) = a ∷ take n l

abbrev pub drop : ℕ → List ℕ → List ℕ
drop zero l = l
drop (suc n) [] = []
drop (suc n) (a ∷ l) = drop n l

abbrev pub tcp_buffer_size : ℕ
tcp_buffer_size = 67108864

pub record TcpSocket : Type 0 where
  pub closed : Bool
  pub outbound : List ℕ
  pub next_send_index : ℕ
  pub inbound : List ℕ
  pub wire : List ℕ

unfoldable pub close_socket : TcpSocket → TcpSocket
close_socket s = record s { closed = true }

-- The `memmove` of `send`: the bytes that the kernel has not taken go to the front.
unfoldable pub compact : TcpSocket → TcpSocket
compact s = record s { outbound = drop s.next_send_index s.outbound; next_send_index = 0 }

-- `send`
unfoldable pub send : TcpSocket → List ℕ → Result TcpSocket
unfolding compact
send s bytes = if s.closed then ok s else do
  let s' =
      if ltb tcp_buffer_size (length s.outbound + length bytes) && ltb 0 s.next_send_index
      then compact s
      else s
  assert (leb (length s'.outbound + length bytes) tcp_buffer_size)
  ok (record s' { outbound = s'.outbound ++ bytes })

-- What `::send` of the kernel returns: bytes that it took, or -1 with EINTR, with EAGAIN or EWOULDBLOCK,
-- or with another error.
pub data SendAnswer : Type 0 where
  sent : ℕ → SendAnswer
  interrupted would_block failed : SendAnswer

-- The sending loop of `sendAndRecv`.
unfoldable pub send_loop : List SendAnswer → TcpSocket → Result TcpSocket
send_loop [] s =
    if not s.closed && ltb s.next_send_index (length s.outbound) then out_of_fuel else ok s
send_loop (a ∷ answers) s = elim (not s.closed && ltb s.next_send_index (length s.outbound)) [
  | false ↦ ok s
  | true ↦ elim a [
    | SendAnswer.sent n ↦ elim (n == 0) [
      | true ↦ ok (close_socket s)
      | false ↦ send_loop answers (record s {
        next_send_index = s.next_send_index + n;
        wire = s.wire ++ take n (drop s.next_send_index s.outbound);
      })
    ]
    | SendAnswer.interrupted ↦ send_loop answers s
    | SendAnswer.would_block ↦ ok s
    | SendAnswer.failed ↦ ok (close_socket s)
  ]
]

-- The sending of `sendAndRecv`: an emptied buffer begins again at the front.
unfoldable pub send_out : List SendAnswer → TcpSocket → Result TcpSocket
send_out answers s = do
  s' ← send_loop answers s
  ok (
      if s'.next_send_index == length s'.outbound
      then record s' { outbound = []; next_send_index = 0 }
      else s')

-- What `recvmsg` returns: bytes that arrived, no bytes from a peer that has closed, or -1 with EINTR, with
-- EAGAIN or EWOULDBLOCK, or with another error.
pub data ReadAnswer : Type 0 where
  arrived : List ℕ → ReadAnswer
  interrupted would_block peer_closed failed : ReadAnswer

module _ {X : Type 0} (recv_callback : X → List ℕ → Result (X × List ℕ)) where
  -- The reading loop of `sendAndRecv`. The callback has its own state, and leaves of the buffer what it
  -- did not use.
  unfoldable pub recv_loop : List ReadAnswer → X → TcpSocket → Result (X × TcpSocket)
  recv_loop [] x s =
      if s.closed || (length s.inbound == tcp_buffer_size) then ok (x, s) else out_of_fuel
  recv_loop (a ∷ answers) x s = elim (s.closed || (length s.inbound == tcp_buffer_size)) [
    | true ↦ ok (x, s)
    | false ↦ elim a [
      | ReadAnswer.arrived bytes ↦ (do
        (x', left) ← recv_callback x (s.inbound ++ bytes)
        recv_loop answers x' (record s { inbound = left }))
      | ReadAnswer.interrupted ↦ recv_loop answers x s
      | ReadAnswer.would_block ↦ ok (x, s)
      | ReadAnswer.peer_closed ↦ ok (x, close_socket s)
      | ReadAnswer.failed ↦ ok (x, close_socket s)
    ]
  ]

  -- `sendAndRecv` of a socket that has its callback.
  unfoldable pub send_and_recv :
      List ReadAnswer → List SendAnswer → X → TcpSocket → Result (X × TcpSocket)
  send_and_recv reads sends x s =
      if s.closed
      then ok (x, s)
      else do (x', s') ← recv_loop reads x s; s'' ← send_out sends s'; ok (x', s'')
