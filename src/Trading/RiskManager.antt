-- ===== src/Trading/RiskManager.antt =====
-- trading/strategy/risk_manager.h. The type of the losses is `double`: its values and its order `<` are
-- parameters. A sum of two `int32_t` that overflows is undefined in the source, and so is `std::abs` of the
-- least one; the model takes both modulo 2^32, as the processor does.
use low_latency_trading_syst.Prelude.{
  ℕ, ◌+◌, ◌-◌, ◌^◌, ◌≤◌, ◌<◌, ◌≡◌, Bool, false, ltb, if◌then◌else◌, ℤ, pos, negsuc, ◌+ℤ◌, ◌*ℤ◌, abs,
  arith, ltb_ℤ, ap, ◌∙◌, ◌%◌, pos_part, neg_part,
}
use low_latency_trading_syst.Common.Types.{Qty, Side, side_to_value, u32_mod}

pub data RiskCheckResult : Type 0 where
  invalid order_too_large position_too_large loss_too_large allowed : RiskCheckResult

-- `static_cast<int32_t>` of an unsigned 32-bit number.
unfoldable pub to_int32 : ℕ → ℤ
to_int32 n = if ltb n (2 ^ 31) then pos n else negsuc (u32_mod - n - 1)

-- The `int32_t` that an integer is modulo 2^32.
unfoldable pub wrap_int32 : ℤ → ℤ
unfolding to_int32
wrap_int32 a = to_int32 ((pos_part a + (u32_mod - neg_part a % u32_mod)) % u32_mod)

pub record RiskCfg (Double : Type 0) : Type 0 where
  pub max_order_size : Qty
  pub max_position : Qty
  pub max_loss : Double

-- The limits of an instrument, and what `checkPreTradeRisk` reads of its position.
pub record RiskInfo (Double : Type 0) : Type 0 where
  pub position : ℤ
  pub total_pnl : Double
  pub risk_cfg : RiskCfg Double

-- `checkPreTradeRisk`
unfoldable pub check_pre_trade_risk :
    {Double : Type 0} → (Double → Double → Bool) → RiskInfo Double → Side → Qty → RiskCheckResult
check_pre_trade_risk lt info side qty =
    if ltb info.risk_cfg.max_order_size qty
    then RiskCheckResult.order_too_large
    else if ltb_ℤ (to_int32 info.risk_cfg.max_position)
        (wrap_int32 (pos (abs (wrap_int32 (info.position +ℤ side_to_value side *ℤ to_int32 qty)))))
    then RiskCheckResult.position_too_large
    else if lt info.total_pnl info.risk_cfg.max_loss
    then RiskCheckResult.loss_too_large
    else RiskCheckResult.allowed

-- What an order of the side may bring the position up and down by, when all of it is filled.
abbrev pub bought : Side → Qty → ℕ
bought Side.buy qty = qty
bought _ qty = 0

abbrev pub sold : Side → Qty → ℕ
sold Side.sell qty = qty
sold _ qty = 0

-- The position after a full fill is within the limit, in either direction.
pub record Within {Double : Type 0} (info : RiskInfo Double) (side : Side) (qty : Qty)
    : Type 0 where
  pub not_long :
      pos_part info.position + bought side qty
      ≤ info.risk_cfg.max_position + neg_part info.position + sold side qty
  pub not_short :
      neg_part info.position + sold side qty
      ≤ info.risk_cfg.max_position + pos_part info.position + bought side qty

abbrev pub IsBuyOrSell : Side → Type 0
IsBuyOrSell Side.buy = Unit
IsBuyOrSell Side.sell = Unit
IsBuyOrSell _ = ⊥

-- A sum that fits in 31 bits does not wrap.
wrap_int32-fits : (a : ℤ) → abs a < 2 ^ 31 → wrap_int32 a ≡ a
unfolding wrap_int32 to_int32
wrap_int32-fits (pos n) h = ground arith
wrap_int32-fits (negsuc n) h = ground arith

-- The sum of the check and the position after a fill.
sum_fits :
    (p : ℤ) (qty : Qty) (side : Side)
    → IsBuyOrSell side
    → abs p + qty < 2 ^ 31
    → abs (p +ℤ side_to_value side *ℤ to_int32 qty) < 2 ^ 31
unfolding to_int32 side_to_value ◌+ℤ◌ ◌*ℤ◌
sum_fits p qty Side.buy t h = ground arith
sum_fits p qty Side.sell t h = ground arith
sum_fits p qty Side.invalid t h = absurd t
sum_fits p qty Side.max t h = absurd t

-- The size of the position and of the order that the check compares with the limit, taken exactly.
exact_size : (a : ℤ) → abs a < 2 ^ 31 → wrap_int32 (pos (abs (wrap_int32 a))) ≡ pos (abs a)
exact_size a h =
    ap (λ b. wrap_int32 (pos (abs b))) (wrap_int32-fits a h)
    ∙ wrap_int32-fits (pos (abs a)) (omega (arith, h))

module _ {Double : Type 0} (lt : Double → Double → Bool) (info : RiskInfo Double) (qty : Qty)
    (h : info.risk_cfg.max_order_size < 2 ^ 31) (k : info.risk_cfg.max_position < 2 ^ 31) where
  -- With limits that fit in 31 bits, and the size of the position and the quantity together below 2^31, a
  -- buy or sell that the check allows is not above the order size, leaves the position within its limit in
  -- either direction when it is filled, and the loss is not too large.
  pub check_pre_trade_risk_allows :
      (side : Side)
      → IsBuyOrSell side
      → abs info.position + qty < 2 ^ 31
      → check_pre_trade_risk lt info side qty ≡ RiskCheckResult.allowed
      → (qty ≤ info.risk_cfg.max_order_size)
        × Within info side qty
        × (lt info.total_pnl info.risk_cfg.max_loss ≡ false)
  unfolding check_pre_trade_risk to_int32 side_to_value ◌+ℤ◌ ◌*ℤ◌
  check_pre_trade_risk_allows Side.buy t room e = ground (
    arith,
    exact_size (info.position +ℤ side_to_value Side.buy *ℤ to_int32 qty)
        (sum_fits info.position qty Side.buy t room),
  )
  check_pre_trade_risk_allows Side.sell t room e = ground (
    arith,
    exact_size (info.position +ℤ side_to_value Side.sell *ℤ to_int32 qty)
        (sum_fits info.position qty Side.sell t room),
  )
  check_pre_trade_risk_allows Side.invalid t room e = absurd t
  check_pre_trade_risk_allows Side.max t room e = absurd t

  -- And it allows every such order.
  pub allowed-check_pre_trade_risk :
      (side : Side)
      → IsBuyOrSell side
      → qty ≤ info.risk_cfg.max_order_size
      → Within info side qty
      → lt info.total_pnl info.risk_cfg.max_loss ≡ false
      → check_pre_trade_risk lt info side qty ≡ RiskCheckResult.allowed
  unfolding check_pre_trade_risk to_int32 side_to_value ◌+ℤ◌ ◌*ℤ◌
  allowed-check_pre_trade_risk Side.buy t a b c =
      ground
        (arith, exact_size (info.position +ℤ side_to_value Side.buy *ℤ to_int32 qty) (ground arith))
  allowed-check_pre_trade_risk Side.sell t a b c =
      ground (
        arith,
        exact_size (info.position +ℤ side_to_value Side.sell *ℤ to_int32 qty) (ground arith),
      )
  allowed-check_pre_trade_risk Side.invalid t a b c = absurd t
  allowed-check_pre_trade_risk Side.max t a b c = absurd t
