-- ===== src/Trading/OrderGateway/Responses.antt =====
-- The responses that `recvCallback` of trading/order_gw/order_gateway.cpp passes on.
use low_latency_trading_syst.Prelude.{
  ℕ, ◌+◌, ◌%◌, ◌≤◌, ◌<◌, ◌≡◌, refl, sym, subst, arith, Bool, true, false, ◌&&◌, ◌==◌, List, [], ◌∷◌,
  length, map, Part, Bool-cases, inl, inr,
}
use low_latency_trading_syst.Common.Types.{ClientId, u64_mod}
use low_latency_trading_syst.Common.LfQueue.Defs.{push}
use low_latency_trading_syst.Common.LfQueue.Fifo.{IsValid, push-IsValid}
use low_latency_trading_syst.Common.LfQueue.Bulk.{push-sizes, Gained, Gained-none, Gained-push}
use low_latency_trading_syst.Exchange.Messages.{OmClientResponse}
use low_latency_trading_syst.Trading.OrderGateway.Gateway.{
  OrderGateway, recv_response, recv_responses,
}

-- The responses of one client, with the numbers from `k` on, of which `k'` is next.
abbrev pub IsSeries : ClientId → ℕ → List OmClientResponse → ℕ → Type 0
IsSeries c k [] k' = k ≡ k'
IsSeries c k (r ∷ rs) k' =
    (r.me_client_response.client_id ≡ c) × (r.seq_num ≡ k) × IsSeries c ((k + 1) % u64_mod) rs k'

-- `fs` of the responses have been passed on.
pub record Forwarded (g g' : OrderGateway) (rs : List OmClientResponse) : Type 0 where
  pub forwarded : List OmClientResponse
  pub in_order : Part forwarded rs
  pub series : IsSeries g.client_id g.next_exp_seq_num forwarded g'.next_exp_seq_num
  pub gained :
      Gained g.incoming_responses g'.incoming_responses (map (λ r. r.me_client_response) forwarded)
  pub same_client : g'.client_id ≡ g.client_id
  pub same_requests : g'.outgoing_requests ≡ g.outgoing_requests

-- A response that is passed on.
abbrev expected : OrderGateway → OmClientResponse → Bool
expected g r = r.me_client_response.client_id == g.client_id && r.seq_num == g.next_exp_seq_num

recv_response-dropped :
    (g : OrderGateway) (r : OmClientResponse) → expected g r ≡ false → recv_response g r ≡ g
unfolding recv_response
recv_response-dropped g r h = ground (arith, h)

recv_response-kept :
    (g : OrderGateway) (r : OmClientResponse)
    → expected g r ≡ true
    → recv_response g r ≡ record g {
      next_exp_seq_num = (g.next_exp_seq_num + 1) % u64_mod;
      incoming_responses = push g.incoming_responses r.me_client_response;
    }
unfolding recv_response
recv_response-kept g r h = ground (arith, h)

-- Of whatever responses arrive, the loop of `recvCallback` passes some on in their order, behind the
-- elements of the trade engine's queue: all are the client's own, and their numbers follow each other from
-- the one expected, without a gap and without a repetition; the number behind the last is expected then.
-- The queue must be well formed and have room for all.
pub recv_responses-Forwarded :
    (g : OrderGateway) (rs : List OmClientResponse)
    → IsValid g.incoming_responses
    → g.incoming_responses.num_elements + length rs ≤ g.incoming_responses.capacity
    → Forwarded g (recv_responses g rs) rs
unfolding recv_responses
recv_responses-Forwarded g [] v room = record {
  forwarded = [];
  in_order = Part.none_left;
  series = refl;
  gained = Gained-none g.incoming_responses v;
  same_client = refl;
  same_requests = refl;
}
recv_responses-Forwarded g (r ∷ rs) v room = elim (Bool-cases (expected g r)) [
  | inl here ↦
      let q = g.incoming_responses in
      let space : q.num_elements < q.capacity = omega (arith, room) in
      let g1 : OrderGateway = record g {
        next_exp_seq_num = (g.next_exp_seq_num + 1) % u64_mod;
        incoming_responses = push q r.me_client_response;
      } in
      let rest =
        recv_responses-Forwarded g1 rs (push-IsValid q v r.me_client_response space)
          (omega (arith, room, push-sizes q r.me_client_response v space)) in
      subst (λ x. Forwarded g (recv_responses x rs) (r ∷ rs)) (sym (recv_response-kept g r here))
        (record {
          forwarded = r ∷ rest.forwarded;
          in_order = Part.keep r rest.in_order;
          series = (ground (arith, here), ground (arith, here), rest.series);
          gained =
              Gained-push q (recv_responses g1 rs).incoming_responses r.me_client_response
                (map (λ x. x.me_client_response) rest.forwarded) v space rest.gained;
          same_client = rest.same_client;
          same_requests = rest.same_requests;
        })
  | inr other ↦
      let rest = recv_responses-Forwarded g rs v (omega (arith, room)) in
      subst (λ x. Forwarded g (recv_responses x rs) (r ∷ rs))
        (sym (recv_response-dropped g r other))
        (record {
          forwarded = rest.forwarded;
          in_order = Part.skip r rest.in_order;
          series = rest.series;
          gained = rest.gained;
          same_client = rest.same_client;
          same_requests = rest.same_requests;
        })
]

-- The exchange's responses to the client, numbered from the expected one on, are all passed on, in their
-- order, and the number behind the last is expected then.
pub recv_responses-all :
    (g : OrderGateway) (rs : List OmClientResponse) (k' : ℕ)
    → IsValid g.incoming_responses
    → g.incoming_responses.num_elements + length rs ≤ g.incoming_responses.capacity
    → IsSeries g.client_id g.next_exp_seq_num rs k'
    → Gained g.incoming_responses
        (recv_responses g rs).incoming_responses
        (map (λ r. r.me_client_response) rs)
      × ((recv_responses g rs).next_exp_seq_num ≡ k')
unfolding recv_responses
recv_responses-all g [] k' v room s = (Gained-none g.incoming_responses v, s)
recv_responses-all g (r ∷ rs) k' v room (own, next, s) =
    let q = g.incoming_responses in
    let space : q.num_elements < q.capacity = omega (arith, room) in
    let g1 : OrderGateway = record g {
      next_exp_seq_num = (g.next_exp_seq_num + 1) % u64_mod;
      incoming_responses = push q r.me_client_response;
    } in
    let (gained, last) =
      recv_responses-all g1 rs k' (push-IsValid q v r.me_client_response space)
        (omega (arith, room, push-sizes q r.me_client_response v space)) s in
    subst
      (λ x.
        Gained q (recv_responses x rs).incoming_responses (map (λ y. y.me_client_response) (r ∷ rs))
        × ((recv_responses x rs).next_exp_seq_num ≡ k'))
      (sym (recv_response-kept g r (ground (arith, own, next))))
      (
        Gained-push q (recv_responses g1 rs).incoming_responses r.me_client_response
            (map (λ y. y.me_client_response) rs) v space gained,
        last,
      )
