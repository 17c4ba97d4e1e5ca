-- ===== src/Trading/PositionKeeper/Examples.antt =====
-- Examples of the theorems on trading/strategy/position_keeper.h, with whole numbers in place of `double`.
use low_latency_trading_syst.Prelude.{
  ◌+◌, ◌≤◌, ◌≡◌, refl, ltb_ℤ, ℤ, pos, pos_part, neg_part, negsuc, abs, ◌+ℤ◌, ◌-ℤ◌, ◌*ℤ◌, none, List,
  [], ◌∷◌, arith,
}
use low_latency_trading_syst.Common.Types.{Side, side_to_value, Qty}
use low_latency_trading_syst.Exchange.Messages.{MeClientResponse, default_response}
use low_latency_trading_syst.Trading.RiskManager.{
  RiskInfo, check_pre_trade_risk, to_int32, wrap_int32,
}
use low_latency_trading_syst.Trading.PositionKeeper.Defs.{DoubleOps, PositionInfo, add_fill}
use low_latency_trading_syst.Trading.PositionKeeper.Filled.{
  add_fills, add_fills-position, allowed-add_fill,
}

abbrev whole : DoubleOps ℤ
whole = record {
  of_int = λ a. a;
  add = λ a b. a +ℤ b;
  sub = λ a b. a -ℤ b;
  mul = λ a b. a *ℤ b;
  div = λ a b. a;
  half = pos 1;
}

-- Ten are sold.
abbrev short : PositionInfo ℤ
short = record {
  position = negsuc 9;
  real_pnl = pos 0;
  unreal_pnl = pos 0;
  total_pnl = pos 0;
  open_vwap = λ _. pos 0;
  volume = 10;
  bbo = none;
}

abbrev fill : Side → Qty → MeClientResponse
fill side qty = record default_response { side = side; price = pos 100; exec_qty = qty }

abbrev fills : List MeClientResponse
fills = fill Side.buy 25 ∷ fill Side.sell 5 ∷ []

add_fills-position_example :
    (pos_part (add_fills whole short fills).position + 10 + 5
      ≡ neg_part (add_fills whole short fills).position + 0 + 25)
    × ((add_fills whole short fills).volume ≡ 40)
add_fills-position_example =
    add_fills-position whole short fills (tt, (tt, tt)) (omega arith) (omega arith)

abbrev limits : RiskInfo ℤ
limits = record {
  position = negsuc 9;
  total_pnl = pos 5;
  risk_cfg = record { max_order_size = 100; max_position = 60; max_loss = pos 2 };
}

allowed-add_fill_example : abs (add_fill whole short (fill Side.sell 50)).position ≤ 60
unfolding check_pre_trade_risk wrap_int32 to_int32 side_to_value ◌+ℤ◌ ◌*ℤ◌
allowed-add_fill_example =
    allowed-add_fill whole (λ a b. ltb_ℤ a b) limits short (fill Side.sell 50) (omega arith)
      (omega arith) refl tt refl (omega arith)
