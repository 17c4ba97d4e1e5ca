-- ===== src/Exchange/OrderServer/Publish.antt =====
-- `sequenceAndPublish` of exchange/order_server/fifo_sequencer.h against the queue's list.
use low_latency_trading_syst.Prelude.{
  suc, ◌+◌, ◌≤◌, ◌<◌, ◌≡◌, refl, sym, ap, ◌∙◌, subst, true, false, ◌==◌, arith, ltb_ℤ, List, [],
  ◌∷◌, ◌++◌, length, map, append-nil, append_assoc, Bool-cases, inl, inr, All,
}
use mathlib.Core.List.{Permᴰ}
use low_latency_trading_syst.Common.LfQueue.Defs.{LfQueue, push}
use low_latency_trading_syst.Common.LfQueue.Fifo.{contents, IsValid, contents-push, push-IsValid}
use low_latency_trading_syst.Common.LfQueue.Bulk.{push-sizes}
use low_latency_trading_syst.Exchange.Messages.{MeClientRequest}
use low_latency_trading_syst.Exchange.OrderServer.Sequencer.{
  RecvTimeClientRequest, FifoSequencer, publish, sequence_and_publish,
}

-- No request was received before one that stands in front of it.
abbrev pub Ascending : List RecvTimeClientRequest → Type 0
Ascending [] = Unit
Ascending (r ∷ rs) = All (λ s. ltb_ℤ s.recv_time r.recv_time ≡ false) rs × Ascending rs

-- What `std::sort` is documented to do.
pub record Sorts (sort : List RecvTimeClientRequest → List RecvTimeClientRequest) : Type 0 where
  pub permutes : (l : List RecvTimeClientRequest) → Permᴰ (sort l) l
  pub ascends : (l : List RecvTimeClientRequest) → Ascending (sort l)

length-Perm : {l k : List RecvTimeClientRequest} → Permᴰ l k → length l ≡ length k
length-Perm Permᴰ.nil = refl
length-Perm (Permᴰ.cons e p) = ap suc (length-Perm p)
length-Perm (Permᴰ.swap e f) = refl
length-Perm (Permᴰ.trans p q) = length-Perm p ∙ length-Perm q

publish_lem :
    (q : LfQueue MeClientRequest) (rs : List RecvTimeClientRequest)
    → IsValid q
    → q.num_elements + length rs ≤ q.capacity
    → (contents (publish q rs) ≡ contents q ++ map (λ r. r.request) rs) × IsValid (publish q rs)
unfolding publish
publish_lem q [] v room = (sym (append-nil (contents q)), v)
publish_lem q (r ∷ rs) v room =
    let here : q.num_elements < q.capacity = omega (arith, room) in
    let sizes = push-sizes q r.request v here in
    let (rest, w) =
      publish_lem (push q r.request) rs (push-IsValid q v r.request here)
        (omega (arith, sizes, room)) in
    (
      rest
          ∙ ap (λ l. l ++ map (λ x. x.request) rs) (contents-push q v r.request here)
          ∙ append_assoc (contents q) (r.request ∷ []) (map (λ x. x.request) rs),
      w,
    )

-- The requests that were pending stand behind the queue's elements, each once and in the order of
-- their receive times, and none is pending.
pub record Published (s s' : FifoSequencer) : Type 0 where
  pub requests : List RecvTimeClientRequest
  pub permuted : Permᴰ requests s.pending_client_requests
  pub ascending : Ascending requests
  pub written :
      contents s'.incoming_requests ≡ contents s.incoming_requests ++ map (λ r. r.request) requests
  pub none_pending : s'.pending_client_requests ≡ []
  pub valid : IsValid s'.incoming_requests

none-Published :
    (s : FifoSequencer) (l : List RecvTimeClientRequest)
    → s.pending_client_requests ≡ l
    → (length l == 0) ≡ true
    → IsValid s.incoming_requests
    → Published s s
none-Published s [] e h v = record {
  requests = [];
  permuted = subst (λ l. Permᴰ [] l) (sym e) Permᴰ.nil;
  ascending = tt;
  written = sym (append-nil (contents s.incoming_requests));
  none_pending = e;
  valid = v;
}
none-Published s (x ∷ l) e h v = ground arith

-- With a sort that sorts, and room in a well-formed queue, `sequenceAndPublish` writes all pending
-- requests behind the queue's elements, each once and in the order of their receive times; none is
-- pending then, and the queue is well formed.
pub sequence_and_publish_lem :
    (sort : List RecvTimeClientRequest → List RecvTimeClientRequest) (s : FifoSequencer)
    → Sorts sort
    → IsValid s.incoming_requests
    → s.incoming_requests.num_elements + length s.pending_client_requests
      ≤ s.incoming_requests.capacity
    → Published s (sequence_and_publish sort s)
unfolding sequence_and_publish
sequence_and_publish_lem sort s h v room =
    elim (Bool-cases (length s.pending_client_requests == 0)) [
      | inl none_there ↦
          rw none_there (none-Published s s.pending_client_requests refl none_there v)
      | inr some_there ↦
          let rs = sort s.pending_client_requests in
          let same : length rs ≡ length s.pending_client_requests =
            length-Perm (h.permutes s.pending_client_requests) in
          let (written, w) = publish_lem s.incoming_requests rs v (omega (arith, same, room)) in
          rw some_there (record {
            requests = rs;
            permuted = h.permutes s.pending_client_requests;
            ascending = h.ascends s.pending_client_requests;
            written = written;
            none_pending = refl;
            valid = w;
          })
    ]
