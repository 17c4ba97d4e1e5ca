-- ===== src/Exchange/OrderBook/MatchStep.antt =====
-- One call of `match` of exchange/matcher/me_order_book.cpp on a well-formed book.
use low_latency_trading_syst.Prelude.{
  ◌-◌, min, ◌≡◌, refl, ap₂, true, false, ◌==◌, arith, List, [], ◌∷◌, ◌++◌, map, ap, ◌∙◌, sym, subst,
  ok, ◌>>=◌, if◌then◌else◌, append_assoc, update,
}
use low_latency_trading_syst.Ring.Chain.{has}
use low_latency_trading_syst.Common.Types.{Qty}
use low_latency_trading_syst.Common.MemPool.Defs.{Ptr}
use low_latency_trading_syst.Exchange.OrderBook.State.{
  MeOrder, MeOrderBook, order, set_order, Message,
}
use low_latency_trading_syst.Exchange.OrderBook.Orders.{remove_order}
use low_latency_trading_syst.Exchange.OrderBook.Matching.{Aggressor, send_fills, settle, match}
use low_latency_trading_syst.Exchange.OrderBook.Frame.{content}
use low_latency_trading_syst.Exchange.OrderBook.SameShape.{SameShape}
use low_latency_trading_syst.Exchange.OrderBook.Spec.{
  fill_messages, gone_message, left_message, filled,
}

abbrev pub tell : MeOrderBook → Message → MeOrderBook
tell b m = record b { sent = b.sent ++ m ∷ [] }

send_fills-sent :
    (b : MeOrderBook) (a : Aggressor) (p : Ptr) (fill_qty leaves : Qty)
    → (send_fills b a p fill_qty leaves).sent
      ≡ b.sent ++ fill_messages a (order b p) fill_qty leaves
unfolding send_fills
send_fills-sent b a p fill_qty leaves = simp append_assoc

settle-gone :
    (b : MeOrderBook) (a : Aggressor) (p : Ptr) (n : Qty)
    → ((order b p).qty == 0) ≡ true
    → settle b a p n ≡ remove_order (tell b (gone_message a (order b p) n)) p
unfolding settle
settle-gone b a p n e = rw e

settle-left :
    (b : MeOrderBook) (a : Aggressor) (p : Ptr) (n : Qty)
    → ((order b p).qty == 0) ≡ false
    → settle b a p n ≡ ok (tell b (left_message a (order b p)))
unfolding settle
settle-left b a p n e = rw e

module _ (b : MeOrderBook) (a : Aggressor) (p : Ptr) (leaves : Qty) where
  abbrev pub o : MeOrder
  o = order b p

  -- The book after the quantities have changed and the fills are sent.
  pub filled_book : MeOrderBook
  unfolding set_order send_fills
  filled_book =
      send_fills (set_order b p (record o { qty = o.qty - min leaves o.qty })) a p
        (min leaves o.qty) (leaves - min leaves o.qty)

  pub filled_book-order :
      (q : Ptr) → order filled_book q ≡ (if q == p then filled o leaves else order b q)
  unfolding filled_book update
  filled_book-order q = ground arith

  pub filled_book-sent :
      filled_book.sent
      ≡ b.sent ++ fill_messages a (filled o leaves) (min leaves o.qty) (leaves - min leaves o.qty)
  unfolding filled_book update
  filled_book-sent =
      let o' : MeOrder = record o { qty = o.qty - min leaves o.qty } in
      let set : order (set_order b p o') p ≡ o' = ground arith in
      send_fills-sent (set_order b p o') a p (min leaves o.qty) (leaves - min leaves o.qty)
      ∙ ap (λ x. b.sent ++ fill_messages a x (min leaves o.qty) (leaves - min leaves o.qty)) set

  filled_book-at : order filled_book p ≡ filled o leaves
  filled_book-at = ground (arith, filled_book-order p)

  unfoldable pub told : Message → MeOrderBook
  told m = tell filled_book m

  pub told-order :
      (m : Message) (q : Ptr) → order (told m) q ≡ (if q == p then filled o leaves else order b q)
  unfolding told order
  told-order m q = filled_book-order q

  pub told-sent :
      (m : Message)
      → (told m).sent
        ≡ b.sent
          ++ (fill_messages a (filled o leaves) (min leaves o.qty) (leaves - min leaves o.qty)
              ++ m ∷ [])
  unfolding told
  told-sent m = rw filled_book-sent (
      append_assoc b.sent
        (fill_messages a (filled o leaves) (min leaves o.qty) (leaves - min leaves o.qty)) (m ∷ []))

  pub told_rest :
      (m : Message)
      → ((told m).next_market_order_id ≡ b.next_market_order_id)
        × ((told m).order_pool.size ≡ b.order_pool.size)
  unfolding told filled_book
  told_rest m = (refl, refl)

  pub told-SameShape : (m : Message) → SameShape b (told m)
  unfolding told filled_book update
  told-SameShape m = record {
    shapes = λ q. ground arith;
    order_free = λ q. ground arith;
    order_size = refl;
    order_next = refl;
    level_pool = refl;
    bids = refl;
    asks = refl;
    prices = refl;
    clients = refl;
  }

  match-settle :
      match b a p leaves
      ≡ (settle filled_book a p o.qty >>= λ b'. ok (leaves - min leaves o.qty, b'))
  unfolding match filled_book
  match-settle = refl

  pub match-gone :
      (o.qty - min leaves o.qty == 0) ≡ true
      → match b a p leaves ≡ (
          remove_order (told (gone_message a (filled o leaves) o.qty)) p >>= λ b'.
          ok (leaves - min leaves o.qty, b'))
  unfolding told
  match-gone gone =
      let empty = subst (λ x. (x.qty == 0) ≡ true) (sym filled_book-at) gone in
      match-settle
      ∙ ap (λ r. r >>= λ b'. ok (leaves - min leaves o.qty, b'))
          (settle-gone filled_book a p o.qty empty
            ∙ ap (λ x. remove_order (tell filled_book (gone_message a x o.qty)) p) filled_book-at)

  pub match-left :
      (o.qty - min leaves o.qty == 0) ≡ false
      → match b a p leaves ≡ ok (leaves - min leaves o.qty, told (left_message a (filled o leaves)))
  unfolding told
  match-left left =
      let some_left = subst (λ x. (x.qty == 0) ≡ false) (sym filled_book-at) left in
      match-settle
      ∙ ap (λ r. r >>= λ b'. ok (leaves - min leaves o.qty, b'))
          (settle-left filled_book a p o.qty some_left
            ∙ ap (λ x. ok (tell filled_book (left_message a x))) filled_book-at)

-- The resting orders after a quantity has changed.
pub resting-set :
    (b b' : MeOrderBook) (p : Ptr) (n : Qty) (l : List Ptr)
    → ((q : Ptr)
        → content (order b' q)
          ≡ (if q == p then record (content (order b p)) { qty = n } else content (order b q)))
    → has p l ≡ false
    → map (λ q. content (order b' q)) l ≡ map (λ q. content (order b q)) l
resting-set b b' p n [] f h = refl
resting-set b b' p n (x ∷ l) f h =
    let here : content (order b' x) ≡ content (order b x) = ground (arith, f x) in
    ap₂ (λ y ys. y ∷ ys) here (resting-set b b' p n l f (ground arith))
