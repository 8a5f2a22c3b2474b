-- ===== src/Scale/Rounding.antt =====
-- `mul_div` of sdk/rust/src/scale.rs is the exact quotient, rounded as asked for.
use native.Mathlib.Nat.{add-mul, div-add-mod', mod-lt}
use solana_orderbook.Base.{
  ℕ, ◌+◌, ◌*◌, ◌/◌, ◌%◌, ◌≤◌, ◌<◌, ◌≡◌, inl, inr, Bool-cases, arith, ltb, leb, min,
}
use solana_orderbook.Scale.{
  RoundingMode, down, up, nearest, good, fitting, rounds_up, round, mul_div, u128_max, ◌and_then◌,
}

-- `q` is the quotient of `n` and `d`, rounded.
abbrev pub Rounds : RoundingMode → ℕ → ℕ → ℕ → Type 0
Rounds down n d q = (q * d ≤ n) × (n < q * d + d)
Rounds up n d q = (n ≤ q * d) × (q * d < n + d)
Rounds nearest n d q = (n * 2 < q * d * 2 + d) × (q * d * 2 ≤ n * 2 + d)

-- The quotient that is rounded, and its remainder.
module _ (n d q : ℕ) (positive : 0 < d) (small : d ≤ u128_max) where
  split : n / d * d + n % d ≡ n
  split = div-add-mod' n d

  short : n % d < d
  short = mod-lt n positive

  next : (n / d + 1) * d ≡ n / d * d + d
  next = omega (arith, add-mul (n / d) 1 d)

  round-Rounds : (mode : RoundingMode) → round mode n d ≡ good q → Rounds mode n d q
  unfolding round rounds_up fitting
  round-Rounds down e =
      let p : n / d ≡ q = ground arith in rw⁻¹ p (omega (arith, split), omega (arith, split, short))
  round-Rounds up e = elim (Bool-cases (ltb 0 (n % d))) [
    | inl h ↦
        let p : n / d + 1 ≡ q = ground arith in
        rw⁻¹ p (omega (arith, next, split, short), ground (arith, next, split, h))
    | inr h ↦
        let p : n / d ≡ q = ground arith in
        rw⁻¹ p (ground (arith, split, h), omega (arith, split, short, positive))
  ]
  round-Rounds nearest e = elim (Bool-cases (leb d (min (n % d * 2) u128_max))) [
    | inl h ↦
        let p : n / d + 1 ≡ q = ground arith in
        rw⁻¹ p (omega (arith, next, split, short), ground (arith, next, split, h))
    | inr h ↦
        let p : n / d ≡ q = ground arith in
        rw⁻¹ p (ground (arith, split, h, small), omega (arith, split))
  ]

-- If `mul_div` succeeds for a denominator that is a u128, its answer is the exact quotient of the
-- product and the denominator, rounded down, up or to the nearest (halves up), as asked for.
pub mul_div-Rounds :
    (x y d q : ℕ) (mode : RoundingMode)
    → d ≤ u128_max
    → mul_div x y d mode ≡ good q
    → Rounds mode (x * y) d q
unfolding mul_div fitting ◌and_then◌
mul_div-Rounds x y d q mode small e =
    round-Rounds (x * y) d q (ground arith) small mode (ground arith)
