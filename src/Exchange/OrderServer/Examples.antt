-- ===== src/Exchange/OrderServer/Examples.antt =====
-- Examples of the theorems on exchange/order_server, with insertion in place of `std::sort`.
use low_latency_trading_syst.Prelude.{
  ℕ, ◌≡◌, refl, false, ◌==◌, arith, pos, ltb_ℤ, List, [], ◌∷◌, if◌then◌else◌, All, Bool-cases, inl,
  inr,
}
use mathlib.Core.List.{Permᴰ}
use mathlib.Core.List.Permᴰ
use low_latency_trading_syst.Common.Types.{Side}
use low_latency_trading_syst.Common.LfQueue.Defs.{LfQueue}
use low_latency_trading_syst.Common.LfQueue.Fifo.{contents, items}
use low_latency_trading_syst.Exchange.Messages.{
  ClientRequestType, MeClientRequest, OmClientRequest, MeClientResponse, default_response,
}
use low_latency_trading_syst.Exchange.OrderServer.Sequencer.{
  RecvTimeClientRequest, FifoSequencer, sequence_and_publish,
}
use low_latency_trading_syst.Exchange.OrderServer.Publish.{
  Ascending, Sorts, Published, sequence_and_publish_lem,
}
use low_latency_trading_syst.Exchange.OrderServer.Server.{
  OrderServer, recv_requests, send_responses,
}
use low_latency_trading_syst.Exchange.OrderServer.Receive.{Received, recv_requests_lem}
use low_latency_trading_syst.Exchange.OrderServer.Send.{Sent, bytes_to, send_responses_lem}

insert : RecvTimeClientRequest → List RecvTimeClientRequest → List RecvTimeClientRequest
insert r [] = r ∷ []
insert r (x ∷ xs) = if ltb_ℤ x.recv_time r.recv_time then x ∷ insert r xs else r ∷ x ∷ xs

insertion_sort : List RecvTimeClientRequest → List RecvTimeClientRequest
insertion_sort [] = []
insertion_sort (r ∷ rs) = insert r (insertion_sort rs)

insert-Perm :
    (r : RecvTimeClientRequest) (l : List RecvTimeClientRequest) → Permᴰ (insert r l) (r ∷ l)
unfolding insert
insert-Perm r [] = Permᴰ.refl (r ∷ [])
insert-Perm r (x ∷ xs) = elim (Bool-cases (ltb_ℤ x.recv_time r.recv_time)) [
  | inl later ↦ rw later (Permᴰ.trans (Permᴰ.cons refl (insert-Perm r xs)) (Permᴰ.swap refl refl))
  | inr sooner ↦ rw sooner (Permᴰ.refl (r ∷ x ∷ xs))
]

sort-Perm : (l : List RecvTimeClientRequest) → Permᴰ (insertion_sort l) l
unfolding insertion_sort
sort-Perm [] = Permᴰ.nil
sort-Perm (r ∷ rs) =
    Permᴰ.trans (insert-Perm r (insertion_sort rs)) (Permᴰ.cons refl (sort-Perm rs))

insert-All :
    (x r : RecvTimeClientRequest) (l : List RecvTimeClientRequest)
    → ltb_ℤ r.recv_time x.recv_time ≡ false
    → All (λ s. ltb_ℤ s.recv_time x.recv_time ≡ false) l
    → All (λ s. ltb_ℤ s.recv_time x.recv_time ≡ false) (insert r l)
unfolding insert
insert-All x r [] h k = (h, tt)
insert-All x r (y ∷ ys) h k = elim (Bool-cases (ltb_ℤ y.recv_time r.recv_time)) [
  | inl later ↦ rw later (k.0, insert-All x r ys h k.1)
  | inr sooner ↦ rw sooner (h, k)
]

All-after :
    (r y : RecvTimeClientRequest) (l : List RecvTimeClientRequest)
    → ltb_ℤ y.recv_time r.recv_time ≡ false
    → All (λ s. ltb_ℤ s.recv_time y.recv_time ≡ false) l
    → All (λ s. ltb_ℤ s.recv_time r.recv_time ≡ false) l
All-after r y [] h k = tt
All-after r y (z ∷ zs) h k = (ground (arith, k.0), All-after r y zs h k.1)

insert-Ascending :
    (r : RecvTimeClientRequest) (l : List RecvTimeClientRequest)
    → Ascending l
    → Ascending (insert r l)
unfolding insert
insert-Ascending r [] a = (tt, tt)
insert-Ascending r (y ∷ ys) a = elim (Bool-cases (ltb_ℤ y.recv_time r.recv_time)) [
  | inl later ↦ rw later (insert-All y r ys (ground (arith, later)) a.0, insert-Ascending r ys a.1)
  | inr sooner ↦ rw sooner ((sooner, All-after r y ys sooner a.0), a)
]

sort-Ascending : (l : List RecvTimeClientRequest) → Ascending (insertion_sort l)
unfolding insertion_sort
sort-Ascending [] = tt
sort-Ascending (r ∷ rs) = insert-Ascending r (insertion_sort rs) (sort-Ascending rs)

insertion_sort-Sorts : Sorts insertion_sort
insertion_sort-Sorts = record { permutes = sort-Perm; ascends = sort-Ascending }

-- A new order of client 3.
abbrev request : MeClientRequest
request = record {
  type = ClientRequestType.new;
  client_id = 3;
  ticker_id = 0;
  order_id = 1;
  side = Side.buy;
  price = pos 100;
  qty = 5;
}

abbrev requests_queue : LfQueue MeClientRequest
requests_queue = record {
  store = λ _. request;
  capacity = 8;
  next_write_index = 0;
  next_read_index = 0;
  num_elements = 0;
}

abbrev sequencer : FifoSequencer
sequencer = record {
  incoming_requests = requests_queue;
  pending_client_requests =
      record { recv_time = pos 7; request = request }
      ∷ record { recv_time = pos 4; request = request }
      ∷ [];
}

sequence_and_publish_lem_example :
    Published sequencer (sequence_and_publish insertion_sort sequencer)
sequence_and_publish_lem_example =
    sequence_and_publish_lem insertion_sort sequencer insertion_sort-Sorts (ground arith)
      (omega arith)

abbrev server : OrderServer
server = record {
  outgoing_responses = record {
    store = λ _. record default_response { client_id = 3 };
    capacity = 8;
    next_write_index = 1;
    next_read_index = 0;
    num_elements = 1;
  };
  cid_next_outgoing_seq_num = λ _. 1;
  cid_next_exp_seq_num = λ _. 1;
  cid_tcp_socket = λ c. if c == 3 then 5 else 0;
  fifo_sequencer = record { incoming_requests = requests_queue; pending_client_requests = [] };
  sockets =
      λ _. record { closed = false; outbound = []; next_send_index = 0; inbound = []; wire = [] };
}

-- The second repeats the number of the first.
abbrev arrivals : List OmClientRequest
arrivals =
    record { seq_num = 1; me_client_request = request }
    ∷ record { seq_num = 1; me_client_request = request }
    ∷ record { seq_num = 2; me_client_request = request }
    ∷ []

recv_requests_lem_example :
    Received server 5 (pos 9) arrivals (recv_requests server 5 (pos 9) arrivals)
recv_requests_lem_example =
    recv_requests_lem server 5 (pos 9) arrivals (omega arith, (omega arith, (omega arith, tt)))
      (omega arith) (omega arith)

abbrev waiting : List MeClientResponse
waiting = record default_response { client_id = 3 } ∷ []

abbrev seq_bytes : ℕ → List ℕ
seq_bytes n = n ∷ []

abbrev response_bytes : MeClientResponse → List ℕ
response_bytes r = r.client_id ∷ r.client_order_id ∷ r.exec_qty ∷ r.leaves_qty ∷ []

send_responses_lem_example :
    Sent seq_bytes response_bytes server waiting (send_responses seq_bytes response_bytes 1 server)
unfolding contents items bytes_to
send_responses_lem_example =
    send_responses_lem seq_bytes response_bytes server waiting (ground arith) refl
      ((omega arith, omega arith), tt)
      (λ c bound. inr (record { opened = refl; valid = omega arith; room = ground arith }))
