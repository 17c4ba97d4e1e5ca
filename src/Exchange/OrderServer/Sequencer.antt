-- ===== src/Exchange/OrderServer/Sequencer.antt =====
-- exchange/order_server/fifo_sequencer.h. `pending` is the part of the array below `pending_size_`.
-- `std::sort` is a parameter.
use low_latency_trading_syst.Prelude.{
  ℕ, not, ◌==◌, leb, if◌then◌else◌, ℤ, List, [], ◌∷◌, ◌++◌, length, Result, ok, ◌>>◌, assert,
}
use low_latency_trading_syst.Common.LfQueue.Defs.{LfQueue, push}
use low_latency_trading_syst.Exchange.Messages.{MeClientRequest}

abbrev pub me_max_pending_requests : ℕ
me_max_pending_requests = 1024

pub record RecvTimeClientRequest : Type 0 where
  pub recv_time : ℤ
  pub request : MeClientRequest

pub record FifoSequencer : Type 0 where
  pub incoming_requests : LfQueue MeClientRequest
  pub pending_client_requests : List RecvTimeClientRequest

-- `addClientRequest`
unfoldable pub add_client_request : FifoSequencer → ℤ → MeClientRequest → Result FifoSequencer
add_client_request s rx_time request = do
  assert (not (leb me_max_pending_requests (length s.pending_client_requests)))
  ok (record s {
    pending_client_requests =
        s.pending_client_requests ++ record { recv_time = rx_time; request = request } ∷ [];
  })

-- The loop of `sequenceAndPublish`.
unfoldable pub publish :
    LfQueue MeClientRequest → List RecvTimeClientRequest → LfQueue MeClientRequest
publish q [] = q
publish q (r ∷ rs) = publish (push q r.request) rs

-- `sequenceAndPublish`
unfoldable pub sequence_and_publish :
    (List RecvTimeClientRequest → List RecvTimeClientRequest) → FifoSequencer → FifoSequencer
sequence_and_publish sort s = if length s.pending_client_requests == 0 then s else record {
  incoming_requests = publish s.incoming_requests (sort s.pending_client_requests);
  pending_client_requests = [];
}
