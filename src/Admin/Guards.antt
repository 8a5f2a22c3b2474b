-- ===== src/Admin/Guards.antt =====
-- The guards of program/src/admin, and what matching relies on.
use native.Mathlib.Nat.{div-mul-le_self, mul-le-mul_right}
use solana_orderbook.Base.{
  ℕ, ◌+◌, sym, u32_max, ◌*◌, ◌/◌, ◌%◌, ◌<◌, ◌≤◌, ◌≡◌, refl, Bool, Option, none, some, arith,
  u32_mod, u64_max, add32,
}
use solana_orderbook.Exec.{Result, ok, err}
use solana_orderbook.State.Header.{Market, set_fee_bps, bump_seq}
use solana_orderbook.State.Bounds.{IsBounded}
use solana_orderbook.Admin.{
  CreateMarketInstructionData, checked_mul, checked_mul_twice, is_none, limit_for, check_limit,
  check_params, set_max_lots_per_order, write_params, create_market, bumped, update_fee,
}

limit_for-small : (denom : ℕ) → limit_for denom + 16384 ≤ u32_max
unfolding limit_for
limit_for-small denom = omega arith

limit_for-fits : (denom : ℕ) → limit_for denom * denom ≤ u64_max
unfolding limit_for
limit_for-fits denom =
    let small : limit_for denom ≤ u64_max / denom = omega arith in
    omega (arith, div-mul-le_self u64_max denom, mul-le-mul_right denom small)

-- What the guards have checked when they pass with a tick limit.
record Checked (d : CreateMarketInstructionData) (tick_limit : ℕ) : Type 0 where
  aligned : d.anchor_tick % 64 ≡ 0
  window : d.anchor_tick + 8191 ≤ tick_limit
  ticks : tick_limit + 16384 ≤ u32_max
  value : tick_limit * (d.tick_size * d.max_lots_per_order * 10500) ≤ u64_max
  base : d.base_lot_size * d.max_lots_per_order ≤ u64_max

check_limit-Checked :
    (d : CreateMarketInstructionData) (o : Option ℕ) (tick_limit : ℕ)
    → d.anchor_tick % 64 ≡ 0
    → o ≡ checked_mul_twice d.tick_size d.max_lots_per_order 10500
    → check_limit d o ≡ ok tick_limit
    → Checked d tick_limit
unfolding check_limit checked_mul_twice checked_mul is_none add32
check_limit-Checked d none tick_limit a p e = record {
  aligned = a;
  window = ground arith;
  ticks = ground arith;
  value = ground arith;
  base = ground arith;
}
check_limit-Checked d (some denom) tick_limit a p e =
    let exact : denom ≡ d.tick_size * d.max_lots_per_order * 10500 = ground arith in
    let limit : tick_limit ≡ limit_for denom = ground arith in
    record {
      aligned = a;
      window = ground (arith, limit_for-small denom);
      ticks = ground (arith, limit_for-small denom);
      value = rw (limit, sym exact) (limit_for-fits denom);
      base = ground arith;
    }

check_params-Checked :
    (d : CreateMarketInstructionData) (same_mints : Bool) (tick_limit : ℕ)
    → check_params d same_mints ≡ ok tick_limit
    → Checked d tick_limit
unfolding check_params
check_params-Checked d same_mints tick_limit e =
    check_limit-Checked d (checked_mul_twice d.tick_size d.max_lots_per_order 10500) tick_limit
      (ground arith) refl (ground arith)

write_params-IsBounded :
    (d : CreateMarketInstructionData) (h h' : Market) (r : Result ℕ)
    → d.max_lots_per_order < u32_mod
    → ((tick_limit : ℕ) → r ≡ ok tick_limit → Checked d tick_limit)
    → write_params d h r ≡ ok h'
    → IsBounded h' × (h'.anchor_tick % 64 ≡ 0)
unfolding write_params set_fee_bps set_max_lots_per_order
write_params-IsBounded d h h' (err x) small c e = (
  record {
    window = ground arith;
    ticks = ground arith;
    value = ground arith;
    base = ground arith;
    fee = ground arith;
    lots = ground arith;
  },
  ground arith,
)
write_params-IsBounded d h h' (ok tick_limit) small c e =
    let k = c tick_limit refl in
    (
      record {
        window = ground (arith, k.window);
        ticks = ground (arith, k.ticks);
        value = ground (arith, k.value);
        base = ground (arith, k.base);
        fee = ground arith;
        lots = ground arith;
      },
      ground (arith, k.aligned),
    )

-- If `create_market` accepts parameters whose lots are a u32, the header that it leaves is
-- bounded as matching needs it, and its anchor is a multiple of 64.
pub create_market-IsBounded :
    (d : CreateMarketInstructionData) (same_mints : Bool) (h h' : Market)
    → d.max_lots_per_order < u32_mod
    → create_market d same_mints h ≡ ok h'
    → IsBounded h' × (h'.anchor_tick % 64 ≡ 0)
unfolding create_market
create_market-IsBounded d same_mints h h' small e =
    write_params-IsBounded d h h' (check_params d same_mints) small
      (check_params-Checked d same_mints) e

-- If `update_fee` succeeds on a bounded header, it sets the fee and leaves a bounded header.
pub update_fee-IsBounded :
    (fee_bps : ℕ) (h h' : Market)
    → IsBounded h
    → update_fee fee_bps h ≡ ok h'
    → IsBounded h' × (h'.fee_bps ≡ fee_bps)
unfolding update_fee set_fee_bps bumped bump_seq
update_fee-IsBounded fee_bps h h' b e = (
  record {
    window = ground (arith, b.window);
    ticks = ground (arith, b.ticks);
    value = ground (arith, b.value);
    base = ground (arith, b.base);
    fee = ground arith;
    lots = ground (arith, b.lots);
  },
  ground arith,
)
