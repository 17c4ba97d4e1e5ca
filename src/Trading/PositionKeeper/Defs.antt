-- ===== src/Trading/PositionKeeper/Defs.antt =====
-- trading/strategy/position_keeper.h. The type `double` and its operations are parameters. A sum or a
-- product of signed numbers that overflows is undefined in the source, and so is `std::abs` of the least
-- one; the model takes them modulo 2^32 or 2^64, as the processor does.
use low_latency_trading_syst.Prelude.{
  ℕ, ◌+◌, ◌-◌, ◌*◌, ◌%◌, not, ◌&&◌, ◌==◌, ltb, if◌then◌else◌, update, ℤ, pos, negsuc, ◌^◌, pos_part,
  neg_part, ◌+ℤ◌, ◌*ℤ◌, ◌==ℤ◌, ltb_ℤ, abs, Option, some, Result, ok, ◌>>◌, assert,
}
use low_latency_trading_syst.Common.Types.{
  Qty, TickerId, Price, price_invalid, Side, side_to_index, side_to_value, is_buy, u32_mod, u64_mod,
  me_max_tickers,
}
use low_latency_trading_syst.Exchange.Messages.{MeClientResponse}
use low_latency_trading_syst.Trading.OrderBook.State.{Bbo}
use low_latency_trading_syst.Trading.RiskManager.{to_int32, wrap_int32}

-- The operations on `double` that the source uses.
pub record DoubleOps (Double : Type 0) : Type 0 where
  pub of_int : ℤ → Double
  pub add : Double → Double → Double
  pub sub : Double → Double → Double
  pub mul : Double → Double → Double
  pub div : Double → Double → Double
  pub half : Double

pub record PositionInfo (Double : Type 0) : Type 0 where
  pub position : ℤ
  pub real_pnl : Double
  pub unreal_pnl : Double
  pub total_pnl : Double
  pub open_vwap : ℕ → Double
  pub volume : Qty
  pub bbo : Option Bbo

-- A signed 32-bit number, converted to an unsigned one.
unfoldable pub to_uint32 : ℤ → ℕ
to_uint32 a = (pos_part a + (u32_mod - neg_part a)) % u32_mod

-- `position_ += exec_qty_ * side_value`: product and sum are taken of unsigned 32-bit numbers.
unfoldable pub add_position : ℤ → Side → Qty → ℤ
unfolding to_uint32
add_position position side qty =
    to_int32 ((to_uint32 position + (qty * to_uint32 (side_to_value side)) % u32_mod) % u32_mod)

-- The `int64_t` that an integer is modulo 2^64.
unfoldable pub wrap_int64 : ℤ → ℤ
wrap_int64 a =
    let n = (pos_part a + (u64_mod - neg_part a % u64_mod)) % u64_mod in
    if ltb n (2 ^ 63) then pos n else negsuc (u64_mod - n - 1)

-- `std::abs` of an `int32_t`.
abbrev pub abs_int32 : ℤ → ℤ
abs_int32 a = wrap_int32 (pos (abs a))

abbrev pub opposite : Side → Side
opposite side = if is_buy side then Side.sell else Side.buy

-- `std::min`
abbrev pub min_ℤ : ℤ → ℤ → ℤ
min_ℤ a b = if ltb_ℤ b a then b else a

module _ {Double : Type 0} (ops : DoubleOps Double) where
  abbrev zero_pnl : Double
  zero_pnl = ops.of_int (pos 0)

  -- `std::abs(position)`, as a factor of a `double`.
  abbrev size_of : ℤ → Double
  size_of position = ops.of_int (abs_int32 position)

  -- "opened / increased position."
  unfoldable pub open_position : PositionInfo Double → MeClientResponse → PositionInfo Double
  open_position i r =
      let side_index = side_to_index r.side in
      record i {
        open_vwap = update i.open_vwap side_index (
            ops.add (i.open_vwap side_index) (ops.of_int (wrap_int64 (r.price *ℤ pos r.exec_qty))));
      }

  -- "decreased position.", from `old_position`.
  unfoldable pub decrease_position :
      PositionInfo Double → ℤ → MeClientResponse → PositionInfo Double
  decrease_position i old_position r =
      let side_index = side_to_index r.side in
      let opp_side_index = side_to_index (opposite r.side) in
      let opp_side_vwap = ops.div (i.open_vwap opp_side_index) (size_of old_position) in
      let vwap = update i.open_vwap opp_side_index (ops.mul opp_side_vwap (size_of i.position)) in
      let closed = min_ℤ (to_int32 r.exec_qty) (abs_int32 old_position) in
      record i {
        real_pnl = ops.add i.real_pnl (
            ops.mul (ops.mul (ops.of_int closed) (ops.sub opp_side_vwap (ops.of_int r.price)))
              (ops.of_int (side_to_value r.side)));
        open_vwap =
            if ltb_ℤ (wrap_int32 (i.position *ℤ old_position)) (pos 0)
            then update
                (update vwap side_index (ops.of_int (wrap_int64 (r.price *ℤ abs_int32 i.position))))
                opp_side_index zero_pnl
            else vwap;
      }

  -- The unrealized profit of an open position at a price.
  unfoldable pub unreal_at : PositionInfo Double → Double → Double
  unreal_at i price =
      let size = size_of i.position in
      if ltb_ℤ (pos 0) i.position
      then ops.mul (ops.sub price (ops.div (i.open_vwap (side_to_index Side.buy)) size)) size
      else ops.mul (ops.sub (ops.div (i.open_vwap (side_to_index Side.sell)) size) price) size

  unfoldable pub mark_fill : PositionInfo Double → Price → PositionInfo Double
  unfolding unreal_at
  mark_fill i price =
      if i.position ==ℤ pos 0
      then record i {
        open_vwap =
            update (update i.open_vwap (side_to_index Side.sell) zero_pnl) (side_to_index Side.buy)
              zero_pnl;
        unreal_pnl = zero_pnl;
      }
      else record i { unreal_pnl = unreal_at i (ops.of_int price) }

  -- `PositionInfo::addFill`
  unfoldable pub add_fill : PositionInfo Double → MeClientResponse → PositionInfo Double
  add_fill i r =
      let old_position = i.position in
      let i1 : PositionInfo Double = record i {
        position = add_position old_position r.side r.exec_qty;
        volume = (i.volume + r.exec_qty) % u32_mod;
      } in
      let i2 =
        if ltb_ℤ (wrap_int32 (old_position *ℤ side_to_value r.side)) (pos 0)
        then decrease_position i1 old_position r
        else open_position i1 r in
      let i3 = mark_fill i2 r.price in record i3 { total_pnl = ops.add i3.unreal_pnl i3.real_pnl }

  abbrev mid_price : Bbo → Double
  mid_price bbo = ops.mul (ops.of_int (wrap_int64 (bbo.bid_price +ℤ bbo.ask_price))) ops.half

  -- `PositionInfo::updateBBO`
  unfoldable pub update_bbo : PositionInfo Double → Bbo → PositionInfo Double
  unfolding unreal_at
  update_bbo i bbo =
      let i1 : PositionInfo Double = record i { bbo = some bbo } in
      if not (i.position ==ℤ pos 0)
        && not (bbo.bid_price ==ℤ price_invalid)
        && not (bbo.ask_price ==ℤ price_invalid)
      then record i1 {
        unreal_pnl = unreal_at i1 (mid_price bbo);
        total_pnl = ops.add (unreal_at i1 (mid_price bbo)) i1.real_pnl;
      }
      else i1

-- `ticker_position_`
pub record PositionKeeper (Double : Type 0) : Type 0 where
  pub ticker_position : TickerId → PositionInfo Double

module _ {Double : Type 0} (ops : DoubleOps Double) where
  -- `PositionKeeper::addFill` and `PositionKeeper::updateBBO`. `at` throws out of range, and both are
  -- `noexcept`.
  unfoldable pub keep_fill :
      PositionKeeper Double → MeClientResponse → Result (PositionKeeper Double)
  keep_fill k r = do
    assert (ltb r.ticker_id me_max_tickers)
    ok (record {
      ticker_position = λ t.
          if t == r.ticker_id then add_fill ops (k.ticker_position t) r else k.ticker_position t;
    })

  unfoldable pub keep_bbo : PositionKeeper Double → TickerId → Bbo → Result (PositionKeeper Double)
  keep_bbo k ticker_id bbo = do
    assert (ltb ticker_id me_max_tickers)
    ok (record {
      ticker_position = λ t.
          if t == ticker_id then update_bbo ops (k.ticker_position t) bbo else k.ticker_position t;
    })
