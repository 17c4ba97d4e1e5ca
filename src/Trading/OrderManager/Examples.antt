-- ===== src/Trading/OrderManager/Examples.antt =====
-- A history of the order manager of trading/strategy/order_manager.h.
use low_latency_trading_syst.Prelude.{refl, pos, update}
use low_latency_trading_syst.Common.Types.{Side, side_to_index}
use low_latency_trading_syst.Exchange.Messages.{
  ClientResponseType, MeClientResponse, default_response,
}
use low_latency_trading_syst.Trading.RiskManager.{RiskCheckResult}
use low_latency_trading_syst.Trading.OrderManager.Manager.{
  OrderManager, init, move_order, move_orders, on_order_update, put_order, updated, new_order,
}
use low_latency_trading_syst.Trading.OrderManager.Histories.{IsSound, Reach, Reach-IsSound}

-- Both orders of instrument 0 are placed, the buy is accepted, and then moved.
abbrev quoted : OrderManager
unfolding side_to_index
quoted =
    move_order (λ _ _ _. RiskCheckResult.allowed)
      (move_order (λ _ _ _. RiskCheckResult.allowed) (init 3) (side_to_index Side.buy) 0 (pos 100)
        Side.buy 5)
      (side_to_index Side.sell) 0 (pos 110) Side.sell 5

abbrev acceptance : MeClientResponse
acceptance = record default_response {
  type = ClientResponseType.accepted;
  ticker_id = 0;
  side = Side.buy;
}

abbrev quoting : OrderManager
unfolding side_to_index
quoting =
    put_order quoted 0 (side_to_index Side.buy)
      (updated (quoted.ticker_side_order 0 (side_to_index Side.buy)) acceptance)

abbrev requoted : OrderManager
unfolding side_to_index
requoted =
    move_order (λ _ _ _. RiskCheckResult.allowed)
      (move_order (λ _ _ _. RiskCheckResult.allowed) quoting (side_to_index Side.buy) 0 (pos 101)
        Side.buy 5)
      (side_to_index Side.sell) 0 (pos 110) Side.sell 5

history : Reach 3 requoted
unfolding move_orders move_order on_order_update put_order new_order init updated update
    side_to_index
history =
    Reach.moved (λ _ _ _. RiskCheckResult.allowed) 0 (pos 101) (pos 110) 5
      (Reach.told acceptance
        (Reach.moved (λ _ _ _. RiskCheckResult.allowed) 0 (pos 100) (pos 110) 5 Reach.start refl)
        refl refl)
      refl

Reach-IsSound_example : IsSound requoted
Reach-IsSound_example = Reach-IsSound 3 requoted history
