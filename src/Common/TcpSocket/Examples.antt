-- ===== src/Common/TcpSocket/Examples.antt =====
-- Examples of the theorems on common/tcp_socket.cpp.
use low_latency_trading_syst.Prelude.{◌≡◌, refl, false, [], ◌∷◌, ok, arith}
use low_latency_trading_syst.Common.TcpSocket.Defs.{TcpSocket, send, SendAnswer, send_out}
use low_latency_trading_syst.Common.TcpSocket.Sending.{
  IsValid, stream, send-stream, send_out-stream,
}

-- The kernel has taken the first of three bytes.
abbrev socket : TcpSocket
socket = record {
  closed = false;
  outbound = 1 ∷ 2 ∷ 3 ∷ [];
  next_send_index = 1;
  inbound = [];
  wire = 1 ∷ [];
}

send-stream_example :
    (s' : TcpSocket) × (send socket (4 ∷ []) ≡ ok s')
    × (stream s' ≡ 1 ∷ 2 ∷ 3 ∷ 4 ∷ [])
    × (s'.wire ≡ 1 ∷ [])
    × (s'.closed ≡ false)
    × IsValid s'
send-stream_example = send-stream socket (4 ∷ []) refl (omega arith) (omega arith)

-- It takes one byte, is interrupted, and takes no more.
send_out-stream_example :
    (s' : TcpSocket) × (send_out
        (SendAnswer.sent 1 ∷ SendAnswer.interrupted ∷ SendAnswer.would_block ∷ [])
        socket
      ≡ ok s')
    × (stream s' ≡ 1 ∷ 2 ∷ 3 ∷ [])
    × IsValid s'
send_out-stream_example =
    send_out-stream (SendAnswer.sent 1 ∷ SendAnswer.interrupted ∷ []) socket (omega arith)
      (omega arith, tt)
