-- ===== src/Exchange/MatchingEngine/Deliver.antt =====
-- What exchange/matcher/matching_engine.h puts on the two outgoing queues.
use low_latency_trading_syst.Prelude.{
  ℕ, ◌+◌, ◌≤◌, ◌<◌, ◌≡◌, ◌≢◌, refl, sym, ap, ◌∙◌, subst, update, arith, List, [], ◌∷◌, ◌++◌, length,
  ok,
}
use low_latency_trading_syst.Common.Types.{Side, me_max_num_clients, me_max_order_ids}
use low_latency_trading_syst.Common.MemPool.Defs.{null}
use low_latency_trading_syst.Common.LfQueue.Fifo.{IsValid, push-IsValid}
use low_latency_trading_syst.Common.LfQueue.Bulk.{Gained, Gained-none, Gained-push, push-sizes}
use low_latency_trading_syst.Exchange.Messages.{
  ClientRequestType, MeClientRequest, MeClientResponse, MeMarketUpdate,
}
use low_latency_trading_syst.Exchange.OrderBook.State.{
  MeOrderBook, order, Message, response, market,
}
use low_latency_trading_syst.Exchange.OrderBook.Matching.{cancel}
use low_latency_trading_syst.Exchange.OrderBook.Shape.{Entry, IsBook}
use low_latency_trading_syst.Exchange.OrderBook.SameShape.{IsBook-same}
use low_latency_trading_syst.Exchange.OrderBook.Remove.Book.{remove_from}
use low_latency_trading_syst.Exchange.OrderBook.Cancel.{cancel-live, cancel_messages}
use low_latency_trading_syst.Exchange.MatchingEngine.Engine.{
  MatchingEngine, send_client_response, send_market_update, deliver, put_book,
  process_client_request,
}

-- The messages of each kind, in their order.
abbrev pub responses : List Message → List MeClientResponse
responses [] = []
responses (response r ∷ ms) = r ∷ responses ms
responses (market u ∷ ms) = responses ms

abbrev pub updates : List Message → List MeMarketUpdate
updates [] = []
updates (response r ∷ ms) = updates ms
updates (market u ∷ ms) = u ∷ updates ms

-- The engine has put the messages on its queues, and the rest of it has not changed.
pub record Delivered (e e' : MatchingEngine) (ms : List Message) : Type 0 where
  pub to_clients : Gained e.outgoing_ogw_responses e'.outgoing_ogw_responses (responses ms)
  pub to_feed : Gained e.outgoing_md_updates e'.outgoing_md_updates (updates ms)
  pub books : e'.ticker_order_book ≡ e.ticker_order_book
  pub requests : e'.incoming_requests ≡ e.incoming_requests

-- With room in both queues, each message of a book ends up behind the others of its queue, in the
-- order of the calls.
pub deliver_lem :
    (e : MatchingEngine) (ms : List Message)
    → IsValid e.outgoing_ogw_responses
    → IsValid e.outgoing_md_updates
    → e.outgoing_ogw_responses.num_elements + length (responses ms)
      ≤ e.outgoing_ogw_responses.capacity
    → e.outgoing_md_updates.num_elements + length (updates ms) ≤ e.outgoing_md_updates.capacity
    → Delivered e (deliver e ms) ms
unfolding deliver send_client_response send_market_update
deliver_lem e [] v w h k = record {
  to_clients = Gained-none e.outgoing_ogw_responses v;
  to_feed = Gained-none e.outgoing_md_updates w;
  books = refl;
  requests = refl;
}
deliver_lem e (response r ∷ ms) v w h k =
    let q = e.outgoing_ogw_responses in
    let here : q.num_elements < q.capacity = omega (arith, h) in
    let sizes = push-sizes q r v here in
    let rest =
      deliver_lem (send_client_response e r) ms (push-IsValid q v r here) w
        (omega (arith, h, sizes)) k in
    record {
      to_clients = Gained-push q _ r (responses ms) v here rest.to_clients;
      to_feed = rest.to_feed;
      books = rest.books;
      requests = rest.requests;
    }
deliver_lem e (market u ∷ ms) v w h k =
    let q = e.outgoing_md_updates in
    let here : q.num_elements < q.capacity = omega (arith, k) in
    let sizes = push-sizes q u w here in
    let rest =
      deliver_lem (send_market_update e u) ms v (push-IsValid q w u here) h
        (omega (arith, k, sizes)) in
    record {
      to_clients = rest.to_clients;
      to_feed = Gained-push q _ u (updates ms) w here rest.to_feed;
      books = rest.books;
      requests = rest.requests;
    }

process_client_request-cancel :
    (e : MatchingEngine) (r : MeClientRequest) (b' : MeOrderBook)
    → r.type ≡ ClientRequestType.cancel
    → cancel (e.ticker_order_book r.ticker_id) r.client_id r.order_id r.ticker_id ≡ ok b'
    → process_client_request e r ≡ ok (put_book e r.ticker_id b')
unfolding process_client_request
process_client_request-cancel e r b' t run = rw (t, run) refl

-- A book whose calls are made is as well formed as before.
IsBook-quiet :
    {b : MeOrderBook} {side : Side} {own other : List Entry}
    → IsBook b side own other
    → IsBook (record b { sent = [] }) side own other
unfolding order
IsBook-quiet {b} {side} {own} {other} v =
    IsBook-same {b = b} {b' = record b { sent = [] }}
      (record {
        shapes = λ p. refl;
        order_free = λ p. refl;
        order_size = refl;
        order_next = refl;
        level_pool = refl;
        bids = refl;
        asks = refl;
        prices = refl;
        clients = refl;
      })
      side own other v

update-here : {A : Type 0} (f : ℕ → A) (i : ℕ) (a : A) → update f i a i ≡ a
unfolding update
update-here f i a = ground arith

-- A cancel of a live order, from the request to the queues: with a well-formed book that has no call
-- left to make, and a place in each queue, the client is sent one response and the feed one update,
-- and the engine's book is well formed without the order.
pub process_cancel :
    (e : MatchingEngine) (r : MeClientRequest) (side : Side) (own other : List Entry)
    → let b = e.ticker_order_book r.ticker_id in
      let q = b.cid_oid_to_order r.client_id r.order_id in
      let ms = cancel_messages r.client_id r.order_id r.ticker_id (order b q) in
      r.type ≡ ClientRequestType.cancel
      → IsBook b side own other
      → b.sent ≡ []
      → r.client_id < me_max_num_clients
      → r.order_id < me_max_order_ids
      → q ≢ null
      → IsValid e.outgoing_ogw_responses
      → IsValid e.outgoing_md_updates
      → e.outgoing_ogw_responses.num_elements < e.outgoing_ogw_responses.capacity
      → e.outgoing_md_updates.num_elements < e.outgoing_md_updates.capacity
      → (e' : MatchingEngine) × (process_client_request e r ≡ ok e')
        × Gained e.outgoing_ogw_responses e'.outgoing_ogw_responses (responses ms)
        × Gained e.outgoing_md_updates e'.outgoing_md_updates (updates ms)
        × IsBook (e'.ticker_order_book r.ticker_id) side (remove_from q own) (remove_from q other)
unfolding put_book
process_cancel e r side own other t v quiet h k live vr vm room_r room_m =
    let b = e.ticker_order_book r.ticker_id in
    let q = b.cid_oid_to_order r.client_id r.order_id in
    let ms = cancel_messages r.client_id r.order_id r.ticker_id (order b q) in
    let (b', run, w, sent, _, _, _, _) =
      cancel-live b side own other r.client_id r.order_id r.ticker_id v h k live in
    let told : b'.sent ≡ ms = sent ∙ ap (λ l. l ++ ms) quiet in
    let e1 : MatchingEngine = record e {
      ticker_order_book = update e.ticker_order_book r.ticker_id (record b' { sent = [] });
    } in
    let d = deliver_lem e1 ms vr vm (omega (arith, room_r)) (omega (arith, room_m)) in
    (
      deliver e1 ms,
      process_client_request-cancel e r b' t run ∙ ap (λ l. ok (deliver e1 l)) told,
      d.to_clients,
      d.to_feed,
      subst (λ x. IsBook x side (remove_from q own) (remove_from q other))
          (sym (
            ap (λ f. f r.ticker_id) d.books
            ∙ update-here e.ticker_order_book r.ticker_id (record b' { sent = [] })))
          (IsBook-quiet w),
    )
