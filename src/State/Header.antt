-- ===== src/State/Header.antt =====
-- `Market`, the header of the market account, and `Config`.
use solana_orderbook.Base.{ℕ, ◌+◌, ◌%◌, ◌==◌, ltb, if◌then◌else◌, u128_mod, add64, mul64}
use solana_orderbook.Exec.{Result, ok, err}
use solana_orderbook.Exec.Errors.{clob, invalid_fee}
use solana_orderbook.State.Constants.{freed_seq, max_fee_bps}

pub record Market : Type 0 where
  pub version : ℕ
  pub bump : ℕ
  pub base_mint : ℕ
  pub quote_mint : ℕ
  pub base_vault : ℕ
  pub quote_vault : ℕ
  pub vault_authority : ℕ
  pub authority : ℕ
  pub config : ℕ
  pub tick_size : ℕ
  pub base_lot_size : ℕ
  pub anchor_tick : ℕ
  pub tick_limit : ℕ
  pub fee_bps : ℕ
  pub max_lots_per_order : ℕ
  pub order_pool_capacity : ℕ
  pub free_head : ℕ
  pub free_count : ℕ
  pub seq : ℕ
  pub order_seq : ℕ
  pub fees_accrued_quote : ℕ
  pub base_token_program : ℕ
  pub quote_token_program : ℕ
  pub base_decimals : ℕ
  pub quote_decimals : ℕ

unfoldable pub notional : Market → ℕ → ℕ → ℕ
notional h tick lots = mul64 (mul64 tick h.tick_size) lots

unfoldable pub base_atoms : Market → ℕ → ℕ
base_atoms h lots = mul64 lots h.base_lot_size

unfoldable pub set_fee_bps : ℕ → Market → Result Market
set_fee_bps v h =
    if ltb max_fee_bps v then err (clob invalid_fee) else ok (record h { fee_bps = v })

unfoldable pub bump_seq : Market → Market
bump_seq h = record h { seq = (h.seq + 1) % u128_mod }

-- The id handed out next: the all-ones value is skipped.
unfoldable pub next_id : Market → ℕ
next_id h = if h.order_seq == freed_seq then 0 else h.order_seq

-- `next_order_id`: the id, and the header with the counter advanced.
unfoldable pub advance_order_seq : Market → Market
unfolding next_id
advance_order_seq h = record h { order_seq = add64 (next_id h) 1 }

unfoldable pub add_fees_accrued : ℕ → Market → Market
add_fees_accrued fee h = record h { fees_accrued_quote = add64 h.fees_accrued_quote fee }

-- `take_fees_accrued` returns the old counter and clears it.
unfoldable pub clear_fees_accrued : Market → Market
clear_fees_accrued h = record h { fees_accrued_quote = 0 }

pub record Config : Type 0 where
  pub version : ℕ
  pub bump : ℕ
  pub authority : ℕ
  pub seat_authority : ℕ
  pub market_authority : ℕ
