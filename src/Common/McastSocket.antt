-- ===== src/Common/McastSocket.antt =====
-- common/mcast_socket.cpp: the outgoing half of a multicast socket. What is sent is a list of whole
-- messages with their bytes counted; `wire` is what has been handed to the kernel. Reading is the
-- kernel's, and is an argument of the receivers.
use low_latency_trading_syst.Prelude.{ℕ, ◌+◌, ltb, List, [], ◌∷◌, ◌++◌, Result, ok, ◌>>◌, assert}

abbrev pub mcast_buffer_size : ℕ
mcast_buffer_size = 67108864

pub record McastSocket (A : Type 0) : Type 0 where
  pub outbound : List A
  pub next_send_valid_index : ℕ
  pub wire : List A

module _ {A : Type 0} where
  -- `send`
  unfoldable pub send : McastSocket A → A → ℕ → Result (McastSocket A)
  send s a len = do
    assert (ltb (s.next_send_valid_index + len) mcast_buffer_size)
    ok (record s {
      outbound = s.outbound ++ a ∷ [];
      next_send_valid_index = s.next_send_valid_index + len;
    })

  -- The sending of `sendAndRecv`.
  unfoldable pub flush : McastSocket A → McastSocket A
  flush s = record { outbound = []; next_send_valid_index = 0; wire = s.wire ++ s.outbound }
