-- ===== src/Ledger/Accounting.antt =====
-- A fill of `take` of program/src/state.rs, and the account of the trade.
use native.Mathlib.Nat.{mul-le-mul_left, mul-le-mul_right, mul-add, add-mul}
use solana_orderbook.Base.{
  ℕ, ◌+◌, ◌-◌, ◌*◌, ◌≤◌, ◌<◌, ◌≡◌, refl, ap, ◌≢◌, ◌∙◌, subst, some, arith, u32_mod, u64_max,
  u64_mod, mul64, mul64_exact, add32_exact, sub32_exact, add64_exact,
}
use solana_orderbook.State.{opposite, TakeParams}
use solana_orderbook.State.Header.{base_atoms}
use solana_orderbook.State.Bounds.{IsBounded}
use solana_orderbook.Book.{Book}
use solana_orderbook.Book.Index.{IsIndexed}
use solana_orderbook.Book.Frame.Fixed.{SameParams, SameParams-trans}
use solana_orderbook.Book.Take.{Walk, filled, fee_on, fill_size}
use solana_orderbook.Book.Take.Fill.{fee_on_le, fill_size-fits, fill_size-IsSized}
use solana_orderbook.Ledger.Settle.{Settled, Settled-add}
use solana_orderbook.Ledger.Matching.{Within-add, Beats, value_fits, base_fits, Account}

-- `filled` without the wrap-around.
unfoldable added : ℕ → ℕ → ℕ → Walk → Walk
added quote fee n w = record w {
  res = record { lots = w.res.lots + n; quote = w.res.quote + quote; fee = w.res.fee + fee };
  remaining = w.remaining - n;
}

filled-added :
    (fee_bps quote n : ℕ) (w : Walk)
    → w.res.lots + n < u32_mod
    → w.res.quote + quote < u64_mod
    → w.res.fee + fee_on fee_bps quote < u64_mod
    → n ≤ w.remaining
    → w.remaining < u32_mod
    → filled fee_bps quote n w ≡ added quote (fee_on fee_bps quote) n w
unfolding filled added
filled-added fee_bps quote n w h k l m o =
    rw
      (
        add32_exact w.res.lots n h,
        add64_exact w.res.quote quote k,
        add64_exact w.res.fee (fee_on fee_bps quote) l,
        sub32_exact w.remaining n m o,
      )
      refl

-- The market, the order and the level that a round works on.
module _ (b : Book) (p : TakeParams) (bounded : IsBounded b.header) (some_lots : 0 < p.max_lots)
    (few : p.max_lots ≤ b.header.max_lots_per_order) (small : p.max_quote ≤ u64_max) (best : ℕ)
    (near : best ≤ b.header.anchor_tick + 8191) (beats : Beats p.side p.limit_tick best) where
  -- The price of a lot.
  abbrev price : ℕ
  price = best * b.header.tick_size

  pub price_exact : mul64 best b.header.tick_size ≡ price
  price_exact = mul64_exact best b.header.tick_size (
      omega (
        arith,
        value_fits b.header bounded 1 (omega arith),
        mul-le-mul_right b.header.tick_size near,
      ))

  module _ (n : ℕ) (w : Walk) (t : Book) (a : Account b p w t) (wanted : n ≤ w.remaining) where
    notional_le : price * n ≤ (b.header.anchor_tick + 8191) * b.header.tick_size * n
    notional_le = mul-le-mul_right n (mul-le-mul_right b.header.tick_size near)

    notional_exact : mul64 price n ≡ price * n
    notional_exact = mul64_exact price n (
        omega (arith, notional_le, a.split, value_fits b.header bounded n (omega (arith, a.split))))

    new_cap :
        w.res.quote + price * n
        ≤ (b.header.anchor_tick + 8191) * b.header.tick_size * (w.res.lots + n)
    new_cap = omega (
      arith,
      a.cap,
      notional_le,
      mul-add ((b.header.anchor_tick + 8191) * b.header.tick_size) w.res.lots n,
    )

    quote_fits : (w.res.quote + price * n) * 10500 ≤ u64_max
    quote_fits =
        omega
          (arith, new_cap, value_fits b.header bounded (w.res.lots + n) (omega (arith, a.split)))

    new_fee :
        (w.res.fee + fee_on b.header.fee_bps (price * n)) * 10000
        ≤ (w.res.quote + price * n) * b.header.fee_bps
    new_fee = omega (
      arith,
      a.fee,
      fee_on_le b.header.fee_bps (price * n),
      add-mul w.res.quote (price * n) b.header.fee_bps,
    )

    fee_fits : w.res.fee + fee_on b.header.fee_bps (price * n) < u64_mod
    fee_fits =
        omega (arith, new_fee, quote_fits, mul-le-mul_left (w.res.quote + price * n) bounded.fee)

    filled-exact :
        filled b.header.fee_bps (mul64 (mul64 best b.header.tick_size) n) n w
        ≡ added (price * n) (fee_on b.header.fee_bps (price * n)) n w
    filled-exact =
        rw (price_exact, notional_exact)
          (filled-added b.header.fee_bps (price * n) n w (omega (arith, a.split, bounded.lots))
            (omega (arith, quote_fits)) fee_fits wanted (omega (arith, a.split, bounded.lots)))

    -- The seat of the maker has been settled, and the order taken out of the book or made smaller.
    module _ (u : Book) (trade : Settled (opposite p.side) (base_atoms b.header n) (price * n) t u)
        (fees : u.header.fees_accrued_quote ≡ t.header.fees_accrued_quote) (params : SameParams t u)
        (indexed : IsIndexed u)
        (affords : p.max_quote ≢ u64_max
          → w.res.quote + price * n + (w.res.fee + fee_on b.header.fee_bps (price * n))
            ≤ p.max_quote) where
      Account-added : Account b p (added (price * n) (fee_on b.header.fee_bps (price * n)) n w) u
      unfolding added
      Account-added = record {
        split = omega (arith, a.split);
        limit =
            Within-add p.side p.limit_tick best b.header.tick_size w.res.lots n w.res.quote beats
              a.limit;
        cap = new_cap;
        budget = affords;
        fee = new_fee;
        settled =
            subst (λ (x : ℕ). Settled (opposite p.side) x (w.res.quote + price * n) b u)
              (omega (
                arith,
                base_fits b.header bounded n (omega (arith, a.split)),
                add-mul w.res.lots n b.header.base_lot_size,
              ))
              (Settled-add (opposite p.side) (w.res.lots * b.header.base_lot_size) w.res.quote
                (base_atoms b.header n) (price * n) b t u a.settled trade);
        fees = fees ∙ a.fees;
        params = SameParams-trans b t u a.params params;
        indexed = indexed;
        last = a.last;
      }

  pub Account-filled :
      (n node_lots : ℕ) (w : Walk) (t u : Book)
      → fill_size p.max_quote b.header.fee_bps (mul64 best b.header.tick_size) node_lots w ≡ some n
      → Settled
          (opposite p.side)
          (base_atoms b.header n)
          (mul64 (mul64 best b.header.tick_size) n)
          t
          u
      → u.header.fees_accrued_quote ≡ t.header.fees_accrued_quote
      → SameParams t u
      → IsIndexed u
      → Account b p w t
      → Account b p (filled b.header.fee_bps (mul64 (mul64 best b.header.tick_size) n) n w) u
  Account-filled n node_lots w t u e trade fees params indexed a =
      let wanted =
        (fill_size-IsSized p.max_quote b.header.fee_bps (mul64 best b.header.tick_size) node_lots w
          n e).wanted in
      let exact = ap (λ (x : ℕ). mul64 x n) price_exact ∙ notional_exact n w t a wanted in
      rw (filled-exact n w t a wanted) (
        Account-added n w t a wanted u
          (subst (λ (x : ℕ). Settled (opposite p.side) (base_atoms b.header n) x t u) exact trade)
          fees params indexed
          λ h.
            subst
              (λ (x : ℕ). w.res.quote + x + (w.res.fee + fee_on b.header.fee_bps x) ≤ p.max_quote)
              exact
              (fill_size-fits p.max_quote b.header.fee_bps (mul64 best b.header.tick_size) node_lots
                w n small (a.budget h) h e))
