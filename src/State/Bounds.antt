-- ===== src/State/Bounds.antt =====
-- What the operations of program/src/state.rs rely on in the parameters of a market.
use solana_orderbook.Base.{◌+◌, ◌*◌, ◌≤◌, ◌<◌, u32_mod, u32_max, u64_max}
use solana_orderbook.State.Header.{Market}

pub record IsBounded (h : Market) : Type 0 where
  pub window : h.anchor_tick + 8191 ≤ h.tick_limit
  pub ticks : h.tick_limit + 16384 ≤ u32_max
  pub value : h.tick_limit * (h.tick_size * h.max_lots_per_order * 10500) ≤ u64_max
  pub base : h.base_lot_size * h.max_lots_per_order ≤ u64_max
  pub fee : h.fee_bps ≤ 500
  pub lots : h.max_lots_per_order < u32_mod
