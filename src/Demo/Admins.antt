-- ===== src/Demo/Admins.antt =====
-- A market created, and its fee changed.
use solana_orderbook.Base.{◌≡◌, ◌%◌, refl, false, arith, add32}
use solana_orderbook.Exec.{ok}
use solana_orderbook.State.Header.{Market, set_fee_bps, bump_seq}
use solana_orderbook.State.Bounds.{IsBounded}
use solana_orderbook.Admin.{
  CreateMarketInstructionData, checked_mul, checked_mul_twice, is_none, limit_for, check_limit,
  check_params, set_max_lots_per_order, write_params, create_market, bumped, update_fee,
}
use solana_orderbook.Admin.Guards.{create_market-IsBounded, update_fee-IsBounded}
use solana_orderbook.Demo.{demo_header}

abbrev params : CreateMarketInstructionData
params = record {
  tick_size = 2;
  base_lot_size = 3;
  anchor_tick = 128;
  fee_bps = 30;
  max_lots_per_order = 1000;
}

-- 2^64 / (2 * 1000 * 10500) is above 2^32, so the width of a tick sets the limit.
abbrev created : Market
created = record demo_header {
  tick_size = 2;
  base_lot_size = 3;
  anchor_tick = 128;
  tick_limit = 4294950911;
  fee_bps = 30;
  max_lots_per_order = 1000;
}

create_ok : create_market params false demo_header ≡ ok created
unfolding create_market check_params check_limit checked_mul_twice checked_mul is_none limit_for
    set_max_lots_per_order write_params set_fee_bps add32
create_ok = refl

create_market-IsBounded_example : IsBounded created × (created.anchor_tick % 64 ≡ 0)
create_market-IsBounded_example =
    create_market-IsBounded params false demo_header created (omega arith) create_ok

abbrev dearer : Market
dearer = record demo_header { fee_bps = 400; seq = 1 }

update_ok : update_fee 400 demo_header ≡ ok dearer
unfolding update_fee bumped bump_seq set_fee_bps
update_ok = refl

demo_header-IsBounded : IsBounded demo_header
demo_header-IsBounded = record {
  window = omega arith;
  ticks = omega arith;
  value = omega arith;
  base = omega arith;
  fee = omega arith;
  lots = omega arith;
}

update_fee-IsBounded_example : IsBounded dearer × (dearer.fee_bps ≡ 400)
update_fee-IsBounded_example =
    update_fee-IsBounded 400 demo_header dearer demo_header-IsBounded update_ok
