-- ===== src/Trading/PositionKeeper/Filled.antt =====
-- The positions of trading/strategy/position_keeper.h against the fills, and against the risk check of
-- trading/strategy/risk_manager.h.
use low_latency_trading_syst.Prelude.{
  ℕ, ◌+◌, ◌%◌, ◌^◌, ◌≤◌, ◌<◌, ◌≡◌, sym, ◌∙◌, subst, Bool, ℤ, pos, negsuc, pos_part, neg_part, abs,
  List, [], ◌∷◌, All, arith,
}
use low_latency_trading_syst.Common.Types.{Qty, Side, side_to_value, u32_mod}
use low_latency_trading_syst.Exchange.Messages.{MeClientResponse}
use low_latency_trading_syst.Trading.RiskManager.{
  to_int32, RiskInfo, RiskCheckResult, check_pre_trade_risk, bought, sold, IsBuyOrSell,
  check_pre_trade_risk_allows,
}
use low_latency_trading_syst.Trading.PositionKeeper.Defs.{
  DoubleOps, PositionInfo, to_uint32, add_position, open_position, decrease_position, mark_fill,
  add_fill,
}

-- The sum that a fill makes, as long as it stays below 2^31 in size.
add_position-sum :
    (p : ℤ) (side : Side) (qty : Qty)
    → IsBuyOrSell side
    → abs p + qty < 2 ^ 31
    → pos_part (add_position p side qty) + neg_part p + sold side qty
      ≡ neg_part (add_position p side qty) + pos_part p + bought side qty
unfolding add_position to_uint32 to_int32 side_to_value
add_position-sum p Side.invalid qty h room = absurd h
add_position-sum p Side.max qty h room = absurd h
add_position-sum (pos n) Side.buy qty h room = ground arith
add_position-sum (negsuc n) Side.buy qty h room = ground arith
add_position-sum (pos n) Side.sell qty h room = ground arith
add_position-sum (negsuc n) Side.sell qty h room = ground arith

module _ {Double : Type 0} (ops : DoubleOps Double) where
  add_fill-position :
      (i : PositionInfo Double) (r : MeClientResponse)
      → ((add_fill ops i r).position ≡ add_position i.position r.side r.exec_qty)
        × ((add_fill ops i r).volume ≡ (i.volume + r.exec_qty) % u32_mod)
  unfolding add_fill mark_fill decrease_position open_position
  add_fill-position i r = (ground arith, ground arith)

  -- The fills of an order flow, one after the other.
  unfoldable pub add_fills : PositionInfo Double → List MeClientResponse → PositionInfo Double
  add_fills i [] = i
  add_fills i (r ∷ rs) = add_fills (add_fill ops i r) rs

-- What was bought and sold in all.
abbrev pub total_bought : List MeClientResponse → ℕ
total_bought [] = 0
total_bought (r ∷ rs) = bought r.side r.exec_qty + total_bought rs

abbrev pub total_sold : List MeClientResponse → ℕ
total_sold [] = 0
total_sold (r ∷ rs) = sold r.side r.exec_qty + total_sold rs

one_side : (side : Side) (qty : Qty) → IsBuyOrSell side → bought side qty + sold side qty ≡ qty
one_side Side.buy qty h = omega arith
one_side Side.sell qty h = omega arith
one_side Side.invalid qty h = absurd h
one_side Side.max qty h = absurd h

abs-le :
    (p p' : ℤ) (b s : ℕ)
    → pos_part p' + neg_part p + s ≡ neg_part p' + pos_part p + b
    → abs p' ≤ abs p + b + s
abs-le (pos n) (pos m) b s e = omega (arith, e)
abs-le (pos n) (negsuc m) b s e = omega (arith, e)
abs-le (negsuc n) (pos m) b s e = omega (arith, e)
abs-le (negsuc n) (negsuc m) b s e = omega (arith, e)

abs-le_limit :
    (p p' : ℤ) (b s limit : ℕ)
    → pos_part p' + neg_part p + s ≡ neg_part p' + pos_part p + b
    → pos_part p + b ≤ limit + neg_part p + s
    → neg_part p + s ≤ limit + pos_part p + b
    → abs p' ≤ limit
abs-le_limit p (pos m) b s limit e h k = omega (arith, e, h, k)
abs-le_limit p (negsuc m) b s limit e h k = omega (arith, e, h, k)

module _ {Double : Type 0} (ops : DoubleOps Double) where
  fill-sum :
      (i : PositionInfo Double) (r : MeClientResponse)
      → IsBuyOrSell r.side
      → abs i.position + r.exec_qty < 2 ^ 31
      → pos_part (add_fill ops i r).position + neg_part i.position + sold r.side r.exec_qty
        ≡ neg_part (add_fill ops i r).position + pos_part i.position + bought r.side r.exec_qty
  fill-sum i r h room =
      rw (add_fill-position ops i r).0 (add_position-sum i.position r.side r.exec_qty h room)

  -- After any fills that are buys and sells, with all quantities together with the size of the position
  -- below 2^31, the position is the one before with what was bought and without what was sold; and if the
  -- volume with all quantities is below 2^32, the volume has grown by them.
  pub add_fills-position :
      (i : PositionInfo Double) (rs : List MeClientResponse)
      → All (λ r. IsBuyOrSell r.side) rs
      → abs i.position + total_bought rs + total_sold rs < 2 ^ 31
      → i.volume + total_bought rs + total_sold rs < u32_mod
      → (pos_part (add_fills ops i rs).position + neg_part i.position + total_sold rs
          ≡ neg_part (add_fills ops i rs).position + pos_part i.position + total_bought rs)
        × ((add_fills ops i rs).volume ≡ i.volume + total_bought rs + total_sold rs)
  unfolding add_fills
  add_fills-position i [] h room space = (omega arith, omega arith)
  add_fills-position i (r ∷ rs) h room space =
      let split = one_side r.side r.exec_qty h.0 in
      let sum = fill-sum i r h.0 (omega (arith, room, split)) in
      let size =
        abs-le i.position (add_fill ops i r).position (bought r.side r.exec_qty)
          (sold r.side r.exec_qty) sum in
      let volume : (add_fill ops i r).volume ≡ i.volume + r.exec_qty =
        (add_fill-position ops i r).1 ∙ omega (arith, space, split) in
      let rest =
        add_fills-position (add_fill ops i r) rs h.1 (omega (arith, room, size, split))
          (omega (arith, space, volume, split)) in
      (omega (arith, sum, rest.0), omega (arith, rest.1, volume, split))

  -- An order that the risk check allows does not take the position out of its limit: with limits that fit in
  -- 31 bits, and quantity and position together below 2^31, the position that the keeper has after a fill of
  -- the whole order is at most the limit in size.
  pub allowed-add_fill :
      (lt : Double → Double → Bool) (info : RiskInfo Double) (i : PositionInfo Double)
      (r : MeClientResponse)
      → info.risk_cfg.max_order_size < 2 ^ 31
      → info.risk_cfg.max_position < 2 ^ 31
      → info.position ≡ i.position
      → IsBuyOrSell r.side
      → check_pre_trade_risk lt info r.side r.exec_qty ≡ RiskCheckResult.allowed
      → abs i.position + r.exec_qty < 2 ^ 31
      → abs (add_fill ops i r).position ≤ info.risk_cfg.max_position
  allowed-add_fill lt info i r h k same side allowed room =
      let within =
        (check_pre_trade_risk_allows lt info r.exec_qty h k r.side side
          (subst (λ p. abs p + r.exec_qty < 2 ^ 31) (sym same) room) allowed).1 in
      abs-le_limit i.position (add_fill ops i r).position (bought r.side r.exec_qty)
        (sold r.side r.exec_qty) info.risk_cfg.max_position (fill-sum i r side room)
        (subst
          (λ p.
            pos_part p + bought r.side r.exec_qty
            ≤ info.risk_cfg.max_position + neg_part p + sold r.side r.exec_qty)
          same within.not_long)
        (subst
          (λ p.
            neg_part p + sold r.side r.exec_qty
            ≤ info.risk_cfg.max_position + pos_part p + bought r.side r.exec_qty)
          same within.not_short)
