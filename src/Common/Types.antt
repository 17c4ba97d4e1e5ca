-- ===== src/Common/Types.antt =====
-- common/types.h: identifiers, prices, quantities, sides, and their limits.
use low_latency_trading_syst.Prelude.{ℕ, ◌-◌, ◌^◌, ℤ, pos, negsuc, Bool, true, false}

-- The moduli of the unsigned types.
abbrev pub u32_mod : ℕ
u32_mod = 2 ^ 32

abbrev pub u64_mod : ℕ
u64_mod = 2 ^ 64

abbrev pub OrderId : Type 0
OrderId = ℕ

abbrev pub order_id_invalid : OrderId
order_id_invalid = u64_mod - 1

abbrev pub TickerId : Type 0
TickerId = ℕ

abbrev pub ticker_id_invalid : TickerId
ticker_id_invalid = u32_mod - 1

abbrev pub ClientId : Type 0
ClientId = ℕ

abbrev pub client_id_invalid : ClientId
client_id_invalid = u32_mod - 1

abbrev pub Price : Type 0
Price = ℤ

abbrev pub price_invalid : Price
price_invalid = pos (2 ^ 63 - 1)

abbrev pub Qty : Type 0
Qty = ℕ

abbrev pub qty_invalid : Qty
qty_invalid = u32_mod - 1

abbrev pub Priority : Type 0
Priority = ℕ

abbrev pub priority_invalid : Priority
priority_invalid = u64_mod - 1

abbrev pub me_max_tickers : ℕ
me_max_tickers = 8

abbrev pub me_max_num_clients : ℕ
me_max_num_clients = 256

abbrev pub me_max_order_ids : ℕ
me_max_order_ids = 1048576

abbrev pub me_max_price_levels : ℕ
me_max_price_levels = 256

abbrev pub me_max_market_updates : ℕ
me_max_market_updates = 262144

pub data Side : Type 0 where
  invalid buy sell max : Side

abbrev pub is_buy : Side → Bool
is_buy Side.buy = true
is_buy _ = false

abbrev pub is_sell : Side → Bool
is_sell Side.sell = true
is_sell _ = false

-- `sideToIndex`: the enumerators are 0, 1, -1 and 2.
unfoldable pub side_to_index : Side → ℕ
side_to_index Side.invalid = 1
side_to_index Side.buy = 2
side_to_index Side.sell = 0
side_to_index Side.max = 3

-- `sideToValue`
unfoldable pub side_to_value : Side → ℤ
side_to_value Side.invalid = pos 0
side_to_value Side.buy = pos 1
side_to_value Side.sell = negsuc 0
side_to_value Side.max = pos 2
