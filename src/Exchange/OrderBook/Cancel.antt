-- ===== src/Exchange/OrderBook/Cancel.antt =====
-- `cancel` of exchange/matcher/me_order_book.cpp on a well-formed book.
use low_latency_trading_syst.Prelude.{
  ok-injective, ◌≡◌, ◌≢◌, ◌<◌, refl, true, false, ◌==◌, arith, List, [], ◌∷◌, ◌++◌, ap, ◌∙◌, sym,
  subst, ok, fatal, Bool-cases, inl, inr, append_assoc, ltb,
}
use low_latency_trading_syst.Common.Types.{
  Side, ClientId, OrderId, TickerId, qty_invalid, me_max_num_clients, me_max_order_ids,
}
use low_latency_trading_syst.Common.MemPool.Defs.{Ptr, null}
use low_latency_trading_syst.Exchange.Messages.{ClientResponseType, MarketUpdateType}
use low_latency_trading_syst.Exchange.OrderBook.State.{
  MeOrder, MeOrderBook, order, Message, response, market,
}
use low_latency_trading_syst.Exchange.OrderBook.Orders.{remove_order}
use low_latency_trading_syst.Exchange.OrderBook.Matching.{cancel, accept_cancel, reject_cancel}
use low_latency_trading_syst.Exchange.OrderBook.Shape.{Entry, IsBook}
use low_latency_trading_syst.Exchange.OrderBook.Frame.{content}
use low_latency_trading_syst.Exchange.OrderBook.SameShape.{SameShape, IsBook-same}
use low_latency_trading_syst.Exchange.OrderBook.Either.{remove_either}
use low_latency_trading_syst.Exchange.OrderBook.Remove.Book.{remove_from}

-- The two messages of a cancel that succeeds, in order.
abbrev pub cancel_messages : ClientId → OrderId → TickerId → MeOrder → List Message
cancel_messages client_id order_id ticker_id o =
    market (record {
      type = MarketUpdateType.cancel;
      order_id = o.market_order_id;
      ticker_id = ticker_id;
      side = o.side;
      price = o.price;
      qty = 0;
      priority = o.priority;
    })
    ∷ response (record {
      type = ClientResponseType.canceled;
      client_id = client_id;
      ticker_id = ticker_id;
      client_order_id = order_id;
      market_order_id = o.market_order_id;
      side = o.side;
      price = o.price;
      exec_qty = qty_invalid;
      leaves_qty = o.qty;
    })
    ∷ []

-- An order that the map does not hold is rejected.
cancel-absent :
    (b : MeOrderBook) (client_id : ClientId) (order_id : OrderId) (ticker_id : TickerId)
    → client_id < me_max_num_clients
    → order_id < me_max_order_ids
    → b.cid_oid_to_order client_id order_id ≡ null
    → cancel b client_id order_id ticker_id ≡ ok (reject_cancel b client_id order_id ticker_id)
unfolding cancel
cancel-absent b client_id order_id ticker_id h k e = ground arith

reject_cancel-clients :
    (b : MeOrderBook) (client_id : ClientId) (order_id : OrderId) (ticker_id : TickerId)
    → (reject_cancel b client_id order_id ticker_id).cid_oid_to_order ≡ b.cid_oid_to_order
unfolding reject_cancel
reject_cancel-clients b client_id order_id ticker_id = refl

-- `at` throws.
cancel-range :
    (b : MeOrderBook) (client_id : ClientId) (order_id : OrderId) (ticker_id : TickerId)
    → client_id < me_max_num_clients
    → ltb order_id me_max_order_ids ≡ false
    → cancel b client_id order_id ticker_id ≡ fatal
unfolding cancel
cancel-range b client_id order_id ticker_id h k = ground arith

module _ (b : MeOrderBook) (side : Side) (own other : List Entry) (client_id : ClientId)
    (order_id : OrderId) (ticker_id : TickerId) (v : IsBook b side own other) where
  abbrev q : Ptr
  q = b.cid_oid_to_order client_id order_id

  accepted :
      (b1 : MeOrderBook)
      → remove_order b q ≡ ok b1
      → (b' : MeOrderBook) × (accept_cancel b client_id order_id ticker_id q ≡ ok b')
        × (b'.sent ≡ (b1.sent ++ cancel_messages client_id order_id ticker_id (order b q)))
        × SameShape b1 b'
        × (b' ≡ record b1 {
          sent = b1.sent ++ cancel_messages client_id order_id ticker_id (order b q);
        })
  unfolding accept_cancel
  accepted b1 run =
      let ms = cancel_messages client_id order_id ticker_id (order b q) in
      (
        record b1 { sent = b1.sent ++ ms },
        rw run (ap (λ l. ok (record b1 { sent = l })) (simp append_assoc)),
        refl,
        record {
          shapes = λ p. refl;
          order_free = λ p. refl;
          order_size = refl;
          order_next = refl;
          level_pool = refl;
          bids = refl;
          asks = refl;
          prices = refl;
          clients = refl;
        },
        refl,
      )

  -- A client's live order is cancelled: it leaves its level, the level goes with it if it was the
  -- last, the feed and the client are told once, the client's map forgets it, and its block is free. The
  -- other orders stand where they stood, and their contents, the quantities among them, are as they were; so
  -- is the next id of the exchange. The book is well formed before and after; the client's id and the
  -- order's are in the ranges of the map.
  pub cancel-live :
      client_id < me_max_num_clients
      → order_id < me_max_order_ids
      → q ≢ null
      → (b' : MeOrderBook) × (cancel b client_id order_id ticker_id ≡ ok b')
        × IsBook b' side (remove_from q own) (remove_from q other)
        × (b'.sent ≡ b.sent ++ cancel_messages client_id order_id ticker_id (order b q))
        × (b'.cid_oid_to_order client_id order_id ≡ null)
        × ((b'.order_pool.store q).is_free ≡ true)
        × ((p : Ptr) → content (order b' p) ≡ content (order b p))
        × (b'.next_market_order_id ≡ b.next_market_order_id)
  unfolding cancel order
  cancel-live h k live =
      let known = v.clients client_id order_id live in
      let (b1, run, w, kept) = remove_either b side own other q v known.0 in
      let (b', accept, sent, same, whole) = accepted b1 run in
      (
        b',
        ground (arith, accept),
        IsBook-same same side (remove_from q own) (remove_from q other) w,
        sent ∙ ap (λ l. l ++ cancel_messages client_id order_id ticker_id (order b q)) kept.sent,
        ground (arith, ap (λ x. x.cid_oid_to_order) whole, kept.unmapped, known),
        ap (λ x. (x.order_pool.store q).is_free) whole ∙ kept.freed,
        λ p. ap (λ x. content (order x p)) whole ∙ kept.contents p,
        ap (λ x. x.next_market_order_id) whole ∙ kept.next_id,
      )

  -- On a well-formed book, after a cancel that returned, of a client in the range of the map, a second
  -- cancel of the same order is rejected, and only the rejection is sent.
  pub cancel_twice :
      {b' : MeOrderBook}
      → client_id < me_max_num_clients
      → cancel b client_id order_id ticker_id ≡ ok b'
      → cancel b' client_id order_id ticker_id ≡ ok (reject_cancel b' client_id order_id ticker_id)
  cancel_twice {b'} h e = elim (Bool-cases (ltb order_id me_max_order_ids)) [
    | inl k ↦
        let forgotten : b'.cid_oid_to_order client_id order_id ≡ null =
          elim (Bool-cases (q == null)) [
            | inl none_there ↦
                let same : ok (reject_cancel b client_id order_id ticker_id) ≡ ok b' =
                  sym (cancel-absent b client_id order_id ticker_id h (ground arith) (ground arith))
                  ∙ e in
                ap (λ x. x.cid_oid_to_order client_id order_id) (sym (ok-injective same))
                ∙ ap (λ m. m client_id order_id)
                    (reject_cancel-clients b client_id order_id ticker_id)
                ∙ ground arith
            | inr there ↦
                let (b1, run, _, _, gone, _, _, _) = cancel-live h (ground arith) (ground arith) in
                subst (λ x. x.cid_oid_to_order client_id order_id ≡ null)
                  (ok-injective (sym run ∙ e)) gone
          ] in
        cancel-absent b' client_id order_id ticker_id h (ground arith) forgotten
    | inr k ↦
        let never : fatal ≡ ok b' = sym (cancel-range b client_id order_id ticker_id h k) ∙ e in
        ground (arith, never)
  ]
