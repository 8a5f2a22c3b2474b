-- ===== src/Admin.antt =====
-- program/src/admin: the parameters of a market. The accounts, the vaults and the event logs are left
-- out, and the mints are known by whether they are the same.
pub mod Guards
pub mod Mints
use solana_orderbook.Base.{
  ℕ, ◌+◌, ◌*◌, ◌-◌, ◌/◌, ◌%◌, min, Bool, true, false, not, ◌||◌, Option, none, some, ◌==◌, ltb,
  if◌then◌else◌, u32_mod, u32_max, u64_max, add32,
}
use solana_orderbook.Exec.{Result, ok, err}
use solana_orderbook.Exec.Errors.{clob, invalid_market_params}
use solana_orderbook.State.Constants.{window_ticks, window_mask, fee_denominator, max_fee_bps}
use solana_orderbook.State.Header.{Market, set_fee_bps, bump_seq}

pub record CreateMarketInstructionData : Type 0 where
  pub tick_size : ℕ
  pub base_lot_size : ℕ
  pub anchor_tick : ℕ
  pub fee_bps : ℕ
  pub max_lots_per_order : ℕ

-- `u64::checked_mul`.
unfoldable pub checked_mul : ℕ → ℕ → Option ℕ
checked_mul a b = if ltb u64_max (a * b) then none else some (a * b)

unfoldable pub is_none : Option ℕ → Bool
is_none none = true
is_none (some n) = false

-- The worst value of a lot's price, for `denom` known to fit.
unfoldable pub limit_for : ℕ → ℕ
limit_for denom = min (u64_max / denom) (u32_max - 2 * window_ticks) % u32_mod

-- `a.checked_mul(b).and_then(|x| x.checked_mul(c))`.
unfoldable pub checked_mul_twice : ℕ → ℕ → ℕ → Option ℕ
unfolding checked_mul
checked_mul_twice a b c = elim (checked_mul a b) [ none ↦ none | some x ↦ checked_mul x c ]

-- The last guards, for the fee-inclusive worst case of an order.
unfoldable pub check_limit : CreateMarketInstructionData → Option ℕ → Result ℕ
check_limit d none = err (clob invalid_market_params)
check_limit d (some denom) =
    if is_none (checked_mul d.base_lot_size d.max_lots_per_order)
    then err (clob invalid_market_params)
    else (if ltb u32_max (d.anchor_tick + window_mask)
          || ltb (limit_for denom) (add32 d.anchor_tick window_mask)
        then err (clob invalid_market_params)
        else ok (limit_for denom))

-- The guards at the head of `CreateMarket::process`; the result is the tick limit.
unfoldable pub check_params : CreateMarketInstructionData → Bool → Result ℕ
check_params d same_mints =
    if (d.tick_size == 0) || ((d.base_lot_size == 0) || (d.max_lots_per_order == 0))
    then err (clob invalid_market_params)
    else (if not ((d.anchor_tick % 64) == 0) || (d.anchor_tick == 0)
        then err (clob invalid_market_params)
        else (if same_mints
            then err (clob invalid_market_params)
            else (if is_none (checked_mul d.tick_size d.anchor_tick)
                then err (clob invalid_market_params)
                else check_limit d (
                    checked_mul_twice d.tick_size d.max_lots_per_order
                      (fee_denominator + max_fee_bps)))))

unfoldable pub set_max_lots_per_order : ℕ → Result Market → Result Market
set_max_lots_per_order n (ok h) = ok (record h { max_lots_per_order = n })
set_max_lots_per_order n (err e) = err e

-- The writes of the parameters to the header, once the guards have passed.
unfoldable pub write_params : CreateMarketInstructionData → Market → Result ℕ → Result Market
write_params d h (err e) = err e
write_params d h (ok tick_limit) = set_max_lots_per_order d.max_lots_per_order (
    set_fee_bps d.fee_bps (record h {
      tick_size = d.tick_size;
      base_lot_size = d.base_lot_size;
      anchor_tick = d.anchor_tick;
      tick_limit = tick_limit;
    }))

unfoldable pub create_market : CreateMarketInstructionData → Bool → Market → Result Market
create_market d same_mints h = write_params d h (check_params d same_mints)

unfoldable pub bumped : Result Market → Result Market
bumped (ok h) = ok (bump_seq h)
bumped (err e) = err e

-- `UpdateFee::process`.
unfoldable pub update_fee : ℕ → Market → Result Market
update_fee fee_bps h = bumped (set_fee_bps fee_bps h)
