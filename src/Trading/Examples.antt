-- ===== src/Trading/Examples.antt =====
-- Examples of the theorems on trading/strategy, with whole numbers in place of `double`.
use low_latency_trading_syst.Prelude.{ℕ, ◌≤◌, ◌≡◌, refl, false, ltb, negsuc, arith}
use low_latency_trading_syst.Common.Types.{Side}
use low_latency_trading_syst.Trading.RiskManager.{
  RiskInfo, RiskCheckResult, check_pre_trade_risk, check_pre_trade_risk_allows,
  allowed-check_pre_trade_risk, Within,
}

abbrev short : RiskInfo ℕ
short = record {
  position = negsuc 9;
  total_pnl = 5;
  risk_cfg = record { max_order_size = 100; max_position = 60; max_loss = 2 };
}

short-Within : Within short Side.sell 50
short-Within = record { not_long = omega arith; not_short = omega arith }

allowed-check_pre_trade_risk_example :
    check_pre_trade_risk ltb short Side.sell 50 ≡ RiskCheckResult.allowed
allowed-check_pre_trade_risk_example =
    allowed-check_pre_trade_risk ltb short 50 (omega arith) (omega arith) Side.sell tt (omega arith)
      short-Within refl

check_pre_trade_risk_allows_example : (50 ≤ 100) × Within short Side.sell 50 × (ltb 5 2 ≡ false)
check_pre_trade_risk_allows_example =
    check_pre_trade_risk_allows ltb short 50 (omega arith) (omega arith) Side.sell tt (omega arith)
      allowed-check_pre_trade_risk_example
