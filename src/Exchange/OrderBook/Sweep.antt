-- ===== src/Exchange/OrderBook/Sweep.antt =====
-- The loops of `checkForMatch` of exchange/matcher/me_order_book.cpp against matching over plain lists.
use low_latency_trading_syst.Prelude.{
  ℕ, zero, suc, ◌-◌, ◌≤◌, ◌<◌, min, ◌≡◌, refl, true, false, ◌||◌, ◌==◌, arith, List, [], ◌∷◌, ◌++◌,
  map, ap, ap₂, ◌∙◌, sym, subst, Result, ok, ◌>>=◌, Bool-cases, inl, inr, if◌then◌else◌,
  append_assoc, append-nil, length,
}
use low_latency_trading_syst.Ring.Chain.{has}
use low_latency_trading_syst.Common.Types.{Price, Side, Qty}
use low_latency_trading_syst.Common.MemPool.Defs.{Ptr, null}
use low_latency_trading_syst.Exchange.OrderBook.State.{
  MeOrder, MeOrderBook, order, level, best, Message,
}
use low_latency_trading_syst.Exchange.OrderBook.Matching.{
  Aggressor, match, opposite_best, too_far, match_loop,
}
use low_latency_trading_syst.Exchange.OrderBook.Shape.{
  Entry, all_orders, IsBook, IsLevel, IsTrading, flip,
}
use low_latency_trading_syst.Exchange.OrderBook.Frame.{content}
use low_latency_trading_syst.Exchange.OrderBook.Sides.{has-IsOrder, Distinct-all_orders}
use low_latency_trading_syst.Exchange.OrderBook.SameShape.{IsBook-same}
use low_latency_trading_syst.Exchange.OrderBook.Remove.Order.{flip-ne}
use low_latency_trading_syst.Exchange.OrderBook.Remove.Book.{Kept, remove_from, remove_order-IsBook}
use low_latency_trading_syst.Exchange.OrderBook.MatchStep.{
  told, told-SameShape, told-order, told-sent, told_rest, match-gone, match-left, resting-set,
}
use low_latency_trading_syst.Exchange.OrderBook.Spec.{
  resting, fill_messages, gone_message, left_message, filled, Sweep, sweep, sweep_empty, sweep_stop,
  sweep_gone, sweep_left,
}

-- What a run of matching has come to: the book, its shape, and its agreement with the lists.
pub record Swept (b : MeOrderBook) (side : Side) (other : List Entry)
    (run : Result (Qty × MeOrderBook)) (s : Sweep) : Type 0 where
  pub book : MeOrderBook
  pub entries : List Entry
  pub returns : run ≡ ok (s.leaves, book)
  pub valid : IsBook book side entries other
  pub same_orders : resting book entries ≡ s.book
  pub other_orders : resting book other ≡ resting b other
  pub messages : book.sent ≡ b.sent ++ s.messages
  pub next_id : book.next_market_order_id ≡ b.next_market_order_id
  pub size : book.order_pool.size ≡ b.order_pool.size

opposite :
    (b : MeOrderBook) (side : Side) → IsTrading side → opposite_best b (flip side) ≡ best b side
unfolding opposite_best best
opposite b Side.buy t = refl
opposite b Side.sell t = refl
opposite b Side.invalid t = absurd t
opposite b Side.max t = absurd t

module _ (a : Aggressor) (fuel : ℕ) (b : MeOrderBook) (leaves : Qty) where
  loop_empty : opposite_best b a.side ≡ null → match_loop a (suc fuel) b leaves ≡ ok (leaves, b)
  unfolding match_loop
  loop_empty e = ground arith

  module _ (e : Entry) (top : opposite_best b a.side ≡ e.ptr) (pos : 1 ≤ e.ptr)
      (first : (level b e.ptr).first_me_order ≡ e.first) where
    loop_stop :
        (leaves == 0 || too_far a.side a.price (order b e.first).price) ≡ true
        → match_loop a (suc fuel) b leaves ≡ ok (leaves, b)
    unfolding match_loop
    loop_stop h = ground arith

    loop_go :
        (leaves == 0 || too_far a.side a.price (order b e.first).price) ≡ false
        → match_loop a (suc fuel) b leaves
          ≡ (match b a e.first leaves >>= λ (l, b'). match_loop a fuel b' l)
    unfolding match_loop
    loop_go h = ground arith

remove_from-first :
    (e : Entry) (es : List Entry)
    → all_orders (remove_from e.first (e ∷ es)) ≡ e.more ++ all_orders es
remove_from-first e es = go e.ptr e.price e.first e.more
  where
    go :
        (ptr : Ptr) (price : Price) (first : Ptr) (more : List Ptr)
        → all_orders (
            remove_from first
              (record { ptr = ptr; price = price; first = first; more = more } ∷ es))
          ≡ more ++ all_orders es
    go ptr price first [] = ground arith
    go ptr price first (y ∷ ys) = ground arith

resting-Kept :
    {b b' : MeOrderBook} {p : Ptr} (k : Kept b b' p) (l : List Ptr)
    → map (λ q. content (order b' q)) l ≡ map (λ q. content (order b q)) l
resting-Kept k [] = refl
resting-Kept k (x ∷ l) = ap₂ (λ y ys. y ∷ ys) (k.contents x) (resting-Kept k l)

module _ (b : MeOrderBook) (a : Aggressor) (side : Side) (e : Entry) (es other : List Entry)
    (leaves : Qty) (v : IsBook b side (e ∷ es) other) where
  not_behind : has e.first (e.more ++ all_orders es) ≡ false
  not_behind = (Distinct-all_orders b side (e ∷ es) v.own_side.levels v.own_side.sorted).0

  not_across : has e.first (all_orders other) ≡ false
  not_across = elim (Bool-cases (has e.first (all_orders other))) [
    | inl there ↦
        let (price, o, _) = has-IsOrder b (flip side) other e.first v.other_side.levels there in
        let mine = v.own_side.levels.0.members.0 in
        absurd (flip-ne side v.trading (sym o.on_side ∙ mine.on_side))
    | inr away ↦ away
  ]

  told-content :
      (m : Message) (q : Ptr)
      → content (order (told b a e.first leaves m) q) ≡ (
          if q == e.first
          then record (content (order b e.first)) {
            qty = (order b e.first).qty - min leaves (order b e.first).qty;
          }
          else content (order b q))
  told-content m q =
      rw (told-order b a e.first leaves m q)
        (elim (Bool-cases (q == e.first)) [ inl h ↦ rw h | inr h ↦ rw h ])

  told-behind :
      (m : Message) (l : List Ptr)
      → has e.first l ≡ false
      → map (λ q. content (order (told b a e.first leaves m) q)) l
        ≡ map (λ q. content (order b q)) l
  told-behind m l = resting-set b _ e.first _ l (told-content m)

  told-IsBook : (m : Message) → IsBook (told b a e.first leaves m) side (e ∷ es) other
  told-IsBook m = IsBook-same (told-SameShape b a e.first leaves m) side (e ∷ es) other v

  abbrev o : MeOrder
  o = order b e.first

  abbrev fill_qty : Qty
  fill_qty = min leaves o.qty

  -- A passive order that is used up is out of the book, and nothing else is.
  gone_step :
      (o.qty - fill_qty == 0) ≡ true
      → (b1 : MeOrderBook) × (match b a e.first leaves ≡ ok (leaves - fill_qty, b1))
        × IsBook b1 side (remove_from e.first (e ∷ es)) other
        × (resting b1 (remove_from e.first (e ∷ es))
            ≡ map (λ q. content (order b q)) (e.more ++ all_orders es))
        × (resting b1 other ≡ resting b other)
        × (b1.sent
            ≡ b.sent
              ++ (fill_messages a (filled o leaves) fill_qty (leaves - fill_qty)
                  ++ gone_message a (filled o leaves) o.qty ∷ []))
        × (b1.next_market_order_id ≡ b.next_market_order_id)
        × (b1.order_pool.size ≡ b.order_pool.size)
  gone_step gone =
      let m = gone_message a (filled o leaves) o.qty in
      let t = told b a e.first leaves m in
      let (b1, run, valid, k) =
        remove_order-IsBook t side (e ∷ es) other e.first (told-IsBook m) (ground arith) in
      let behind = e.more ++ all_orders es in
      (
        b1,
        match-gone b a e.first leaves gone ∙ ap (λ r. r >>= λ b'. ok (leaves - fill_qty, b')) run,
        valid,
        ap (map (λ q. content (order b1 q))) (remove_from-first e es)
            ∙ resting-Kept k behind
            ∙ told-behind m behind not_behind,
        resting-Kept k (all_orders other) ∙ told-behind m (all_orders other) not_across,
        k.sent ∙ told-sent b a e.first leaves m,
        k.next_id ∙ (told_rest b a e.first leaves m).0,
        k.size ∙ (told_rest b a e.first leaves m).1,
      )

  -- A passive order that is not used up keeps its place, with what it has left.
  left_resting :
      (m : Message)
      → resting (told b a e.first leaves m) (e ∷ es)
        ≡ record (content o) { qty = o.qty - fill_qty }
          ∷ map (λ q. content (order b q)) (e.more ++ all_orders es)
  left_resting m =
      let here : content (order (told b a e.first leaves m) e.first)
          ≡ record (content o) { qty = o.qty - fill_qty } =
        ground (arith, told-content m e.first) in
      ap₂ (λ y ys. y ∷ ys) here (told-behind m (e.more ++ all_orders es) not_behind)

loop_done :
    (a : Aggressor) (fuel : ℕ) (b : MeOrderBook) (leaves : Qty)
    → 0 < fuel
    → leaves ≡ 0
    → match_loop a fuel b leaves ≡ ok (leaves, b)
unfolding match_loop
loop_done a zero b leaves f e = absurd (omega arith)
loop_done a (suc fuel) b leaves f e = ground arith

module _ (a : Aggressor) (fuel : ℕ) (b : MeOrderBook) (side : Side) (e : Entry)
    (es other : List Entry) (leaves : Qty) (h : a.side ≡ flip side)
    (v : IsBook b side (e ∷ es) other) (f : length (all_orders (e ∷ es)) < suc fuel) where
  abbrev run : Result (Qty × MeOrderBook)
  run = match_loop a (suc fuel) b leaves

  abbrev first : MeOrder
  first = content (order b e.first)

  abbrev behind : List MeOrder
  behind = map (λ q. content (order b q)) (e.more ++ all_orders es)

  abbrev left_qty : Qty
  left_qty = leaves - min leaves first.qty

  IsLevel-first : IsLevel b side e
  IsLevel-first = v.own_side.levels.0

  top : opposite_best b a.side ≡ e.ptr
  top = ap (opposite_best b) h ∙ opposite b side v.trading ∙ v.own_side.top

  step :
      (leaves == 0 || too_far a.side a.price first.price) ≡ false
      → run ≡ (match b a e.first leaves >>= λ (l, b'). match_loop a fuel b' l)
  step = loop_go a fuel b leaves e top IsLevel-first.block.positive IsLevel-first.first

  Swept-stop :
      (leaves == 0 || too_far a.side a.price first.price) ≡ true
      → Swept b side other run (sweep a leaves (first ∷ behind))
  Swept-stop stop =
      subst (Swept b side other run) (sym (sweep_stop a leaves first behind stop)) (record {
        book = b;
        entries = e ∷ es;
        returns =
            loop_stop a fuel b leaves e top IsLevel-first.block.positive IsLevel-first.first stop;
        valid = v;
        same_orders = refl;
        other_orders = refl;
        messages = sym (append-nil b.sent);
        next_id = refl;
        size = refl;
      })

  Swept-left :
      (leaves == 0 || too_far a.side a.price first.price) ≡ false
      → (first.qty - min leaves first.qty == 0) ≡ false
      → Swept b side other run (sweep a leaves (first ∷ behind))
  Swept-left more left =
      let m = left_message a (filled (order b e.first) leaves) in
      let t = told b a e.first leaves m in
      let spent : left_qty ≡ 0 = ground arith in
      subst (Swept b side other run) (sym (sweep_left a leaves first behind more left)) (record {
        book = t;
        entries = e ∷ es;
        returns =
            step more
            ∙ ap (λ r. r >>= λ (l, b'). match_loop a fuel b' l) (match-left b a e.first leaves left)
            ∙ loop_done a fuel t left_qty (omega (arith, f)) spent;
        valid = told-IsBook b a side e es other leaves v m;
        same_orders = left_resting b a side e es other leaves v m;
        other_orders =
            told-behind b a side e es other leaves v m (all_orders other)
              (not_across b a side e es other leaves v);
        messages = told-sent b a e.first leaves m;
        next_id = (told_rest b a e.first leaves m).0;
        size = (told_rest b a e.first leaves m).1;
      })

  Swept-gone :
      (leaves == 0 || too_far a.side a.price first.price) ≡ false
      → (first.qty - min leaves first.qty == 0) ≡ true
      → ((b1 : MeOrderBook)
          → IsBook b1 side (remove_from e.first (e ∷ es)) other
          → Swept b1 side other
              (match_loop a fuel b1 left_qty)
              (sweep a left_qty (resting b1 (remove_from e.first (e ∷ es)))))
      → Swept b side other run (sweep a leaves (first ∷ behind))
  Swept-gone more gone next =
      let (b1, ran, valid, same, across, sent, next_id, size) =
        gone_step b a side e es other leaves v gone in
      let ih =
        subst (λ l. Swept b1 side other (match_loop a fuel b1 left_qty) (sweep a left_qty l)) same
          (next b1 valid) in
      let rest = sweep a left_qty behind in
      let told_messages =
        fill_messages a (filled first leaves) (min leaves first.qty) left_qty
        ++ gone_message a (filled first leaves) first.qty ∷ [] in
      subst (Swept b side other run) (sym (sweep_gone a leaves first behind more gone)) (record {
        book = ih.book;
        entries = ih.entries;
        returns = step more ∙ ap (λ r. r >>= λ (l, b'). match_loop a fuel b' l) ran ∙ ih.returns;
        valid = ih.valid;
        same_orders = ih.same_orders;
        other_orders = ih.other_orders ∙ across;
        messages =
            ih.messages
            ∙ ap (λ l. l ++ rest.messages) sent
            ∙ append_assoc b.sent told_messages rest.messages;
        next_id = ih.next_id ∙ next_id;
        size = ih.size ∙ size;
      })

-- The loop returns within the fuel, and does what matching over the lists of resting orders says.
pub swept :
    (a : Aggressor) (fuel : ℕ) (b : MeOrderBook) (side : Side) (es other : List Entry)
    (leaves : Qty)
    → a.side ≡ flip side
    → IsBook b side es other
    → length (all_orders es) < fuel
    → Swept b side other (match_loop a fuel b leaves) (sweep a leaves (resting b es))
swept a zero b side es other leaves h v f = absurd (omega arith)
swept a (suc fuel) b side [] other leaves h v f =
    subst (Swept b side other (match_loop a (suc fuel) b leaves)) (sym (sweep_empty a leaves))
      (record {
        book = b;
        entries = [];
        returns =
            loop_empty a fuel b leaves
              (ap (opposite_best b) h ∙ opposite b side v.trading ∙ v.own_side.top);
        valid = v;
        same_orders = refl;
        other_orders = refl;
        messages = sym (append-nil b.sent);
        next_id = refl;
        size = refl;
      })
swept a (suc fuel) b side (e ∷ es) other leaves h v f =
    elim (Bool-cases (leaves == 0 || too_far a.side a.price (order b e.first).price)) [
      | inl stop ↦ Swept-stop a fuel b side e es other leaves h v f stop
      | inr more ↦
          elim (Bool-cases ((order b e.first).qty - min leaves (order b e.first).qty == 0)) [
            | inl gone ↦ Swept-gone a fuel b side e es other leaves h v f more gone (λ b1 w.
                swept a fuel b1 side (remove_from e.first (e ∷ es)) other
                  (leaves - min leaves (order b e.first).qty) h w
                  (omega (arith, ap length (remove_from-first e es))))
            | inr left ↦ Swept-left a fuel b side e es other leaves h v f more left
          ]
    ]
