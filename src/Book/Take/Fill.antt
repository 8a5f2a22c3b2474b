-- ===== src/Book/Take/Fill.antt =====
-- The size of a fill and what it costs.
use native.Mathlib.Nat.{
  mod-le, mul-le-mul_left, mul-le-mul_right, mul-add, mul-div-le, div-mul-le_self,
}
use solana_orderbook.Base.{
  ℕ, ◌+◌, ◌*◌, ◌/◌, ◌≤◌, ◌≡◌, ◌≢◌, some, min, arith, u64_max, u64_mod, mul64, sub64, sub64_exact,
}
use solana_orderbook.Book.Take.{Walk, affordable, fill_size, fee_on}

pub mul64_le : (a b : ℕ) → mul64 a b ≤ a * b
unfolding mul64
mul64_le a b = mod-le (a * b) u64_mod

-- The fee on `n` is at most `fee_bps` basis points of it.
pub fee_on_le : (fee_bps n : ℕ) → fee_on fee_bps n * 10000 ≤ n * fee_bps
unfolding fee_on
fee_on_le fee_bps n = omega (arith, mul64_le n fee_bps)

-- What lots at a price cost, when they number no more than `x` divides into.
cost_le : (price fill x : ℕ) → fill ≤ x / price → mul64 price fill ≤ x
cost_le price fill x h =
    omega (arith, mul64_le price fill, mul-le-mul_left price h, mul-div-le x price)

-- A fill of affordable size costs no more than the budget, fee included.
pub affordable-fits :
    (budget fee_bps price fill : ℕ)
    → fill ≤ affordable budget fee_bps price
    → mul64 price fill + fee_on fee_bps (mul64 price fill) ≤ budget
unfolding affordable
affordable-fits budget fee_bps price fill h =
    let n = mul64 price fill in
    let d = 10000 + fee_bps in
    let x = mul64 (min budget (u64_max / d)) 10000 in
    omega (
      arith,
      mul64_le (min budget (u64_max / d)) 10000,
      div-mul-le_self x d,
      mul-le-mul_right d (cost_le price fill (x / d) h),
      mul-add n 10000 fee_bps,
      fee_on_le fee_bps n,
    )

-- A fill takes no more than the order has and the taker still wants, and no more than the rest of the
-- budget pays for.
pub record IsSized (max_quote fee_bps price node_lots : ℕ) (w : Walk) (fill : ℕ) : Type 0 where
  pub wanted : fill ≤ w.remaining
  pub resting : fill ≤ node_lots
  pub paid :
      max_quote ≢ u64_max
      → fill ≤ affordable (sub64 (sub64 max_quote w.res.quote) w.res.fee) fee_bps price

pub fill_size-IsSized :
    (max_quote fee_bps price node_lots : ℕ) (w : Walk) (fill : ℕ)
    → fill_size max_quote fee_bps price node_lots w ≡ some fill
    → IsSized max_quote fee_bps price node_lots w fill
unfolding fill_size
fill_size-IsSized max_quote fee_bps price node_lots w fill e = record {
  wanted = ground arith;
  resting = ground arith;
  paid = λ h. ground arith;
}

-- Under a quote budget that the walk has kept so far, a fill of the size that `fill_size`
-- computes leaves quote and fees, those of the fill included, within the budget.
pub fill_size-fits :
    (max_quote fee_bps price node_lots : ℕ) (w : Walk) (fill : ℕ)
    → max_quote ≤ u64_max
    → w.res.quote + w.res.fee ≤ max_quote
    → max_quote ≢ u64_max
    → fill_size max_quote fee_bps price node_lots w ≡ some fill
    → w.res.quote + mul64 price fill + (w.res.fee + fee_on fee_bps (mul64 price fill)) ≤ max_quote
fill_size-fits max_quote fee_bps price node_lots w fill small spent bounded e =
    let left = sub64 (sub64 max_quote w.res.quote) w.res.fee in
    omega (
      arith,
      sub64_exact max_quote w.res.quote (omega arith) (omega arith),
      sub64_exact (sub64 max_quote w.res.quote) w.res.fee
          (omega (arith, sub64_exact max_quote w.res.quote (omega arith) (omega arith)))
          (omega (arith, sub64_exact max_quote w.res.quote (omega arith) (omega arith))),
      affordable-fits left fee_bps price fill
          ((fill_size-IsSized max_quote fee_bps price node_lots w fill e).paid bounded),
    )
